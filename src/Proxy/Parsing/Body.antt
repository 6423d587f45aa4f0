-- ===== src/Proxy/Parsing/Body.antt =====
-- The body of a chat request in src/proxy.py: what is accepted, however it is cut into chunks.
use free_lunch.Json.{Json, object, Fields}
use free_lunch.Providers.Requests.{read_body}
use free_lunch.Proxy.Parsing.{
  Numbers, accepted, >>=-eq-accepted, declares_more, require_object, within, read_chat_payload,
}
use free_lunch.Prelude.{
  ℕ, ◌+◌, ◌≤◌, ◌≡◌, ◌↔◌, refl, String, Bool, true, false, Option, none, some, List, [], ◌∷◌, ◌++◌,
  arith, ltb, length, length-append, if◌then◌else◌, Bool-cases, inl, inr,
}

-- The chunks put together.
abbrev pub join : List (List ℕ) → List ℕ
join [] = []
join (c ∷ cs) = c ++ join cs

-- The loop reads all or gives up, by the length of the whole body alone, where the part that was read
-- is within the limit.
pub read_body-join :
    (limit size : ℕ) (chunks : List (List ℕ))
    → size ≤ limit
    → read_body limit size chunks
      ≡ (if ltb limit (size + length (join chunks)) then none else some (join chunks))
read_body-join limit size [] h = ground arith
read_body-join limit size (c ∷ cs) h = elim (Bool-cases (ltb limit (size + length c))) [
  | inl over ↦ ground (arith, over, length-append c (join cs))
  | inr fits ↦
      ground (arith, fits, length-append c (join cs), read_body-join limit (size + length c) cs)
]

pub require_object-object :
    (v : Option Json) (d : Fields) → require_object v ≡ accepted d → v ≡ some (object d)
require_object-object none d h = absurd (ground (arith, h))
require_object-object (some (object e)) d h = ground (arith, h)
require_object-object (some v) d h = absurd (ground (arith, h))

within-read :
    (too_long : Bool) (read : Option (List ℕ)) (body : List ℕ)
    → within too_long read ≡ accepted body
    → (too_long ≡ false) × (read ≡ some body)
within-read true read body h = absurd (ground (arith, h))
within-read false none body h = absurd (ground (arith, h))
within-read false (some b) body h = (refl, ground (arith, h))

module _ (n : Numbers) (loads : List ℕ → Option Json) (limit : ℕ) where
  -- The body is an object of at most the limit's length, and no greater length was declared.
  pub record IsAcceptable (content_length : Option String) (chunks : List (List ℕ)) (d : Fields)
      : Type 0 where
    pub declared : declares_more n limit content_length ≡ accepted false
    pub within_limit : length (join chunks) ≤ limit
    pub parsed : loads (join chunks) ≡ some (object d)

  -- A chat request's body is accepted exactly when no length above the limit was declared, all its chunks
  -- together are within the limit, and they hold a JSON object, which is then what is read.
  pub read_chat_payload_iff :
      (content_length : Option String) (chunks : List (List ℕ)) (d : Fields)
      → (read_chat_payload n loads limit content_length chunks ≡ accepted d)
        ↔ IsAcceptable content_length chunks d
  unfolding read_chat_payload
  read_chat_payload_iff content_length chunks d = (only_if, if_acceptable)
    where
      only_if :
          read_chat_payload n loads limit content_length chunks ≡ accepted d
          → IsAcceptable content_length chunks d
      only_if h =
          let (too_long, declared, rest) =
            >>=-eq-accepted (declares_more n limit content_length) _ d h in
          let (body, fits, object_given) =
            >>=-eq-accepted (within too_long (read_body limit 0 chunks)) _ d rest in
          let read = within-read too_long (read_body limit 0 chunks) body fits in
          let whole_read = read_body-join limit 0 chunks (omega arith) in
          let parsed = require_object-object (loads body) d object_given in
          elim (Bool-cases (ltb limit (length (join chunks)))) [
            | inl over ↦ absurd (ground (arith, over, read.1, whole_read))
            | inr fit ↦
                let same : join chunks ≡ body = ground (arith, fit, read.1, whole_read) in
                record {
                  declared = ground (arith, declared, read.0);
                  within_limit = ground (arith, fit);
                  parsed = rw (same) parsed;
                }
          ]

      if_acceptable :
          IsAcceptable content_length chunks d
          → read_chat_payload n loads limit content_length chunks ≡ accepted d
      if_acceptable a =
          let whole_read = read_body-join limit 0 chunks (omega arith) in
          let read : read_body limit 0 chunks ≡ some (join chunks) =
            ground (arith, whole_read, a.within_limit) in
          rw (a.declared, read, a.parsed) refl
