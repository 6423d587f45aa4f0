-- ===== src/Throttle/Lockout.antt =====
-- When the throttle of src/security_throttle.py blocks a key, for how long, and what ends it.
use free_lunch.Prelude.{
  ℕ, ◌+◌, ◌*◌, ◌≤◌, ◌<◌, String, ◌≡◌, ◌≢◌, ◌↔◌, refl, none, some, List, [], ◌∷◌, ◌++◌, arith,
  length, length-append, eq_iff, eq_refl, All, Option-cases, inl, inr,
}
use free_lunch.Dict.{
  lookup, insert, erase, lookup-insert, lookup-erase, lookup-append, length-insert,
  length-erase_of_some,
}
use free_lunch.Throttle.{
  Entry, FailureThrottle, failed_entry, retry_after, fail, reset, ends, second,
}
use free_lunch.Throttle.Bounds.{
  IsValid, lookup-pop_oldest_last, lookup-erase_self, lookup-insert_self, move_to_end-insert,
  pop_oldest_small, fail-IsValid,
}

module _ (digest : String → String) where
  -- The entry that a failure writes survives the eviction that follows it.
  pub lookup-fail :
      (t : FailureThrottle) (now : ℕ) (key : String)
      → IsValid t
      → lookup (digest key) (fail digest t now key).entries
        ≡ some (failed_entry digest t now (lookup (digest key) t.entries))
  unfolding fail
  lookup-fail t now key v =
      let d = digest key in
      let e = failed_entry digest t now (lookup d t.entries) in
      rw move_to_end-insert (
        lookup-pop_oldest_last t.max_entries d e (erase d (insert d e t.entries)) v.bound_pos
          (lookup-erase_self d (insert d e t.entries)))

  -- Below the bound nothing is evicted: the failures of one key leave the windows of keys with another
  -- digest alone.
  pub fail_other_key :
      (t : FailureThrottle) (now : ℕ) (key other : String)
      → digest key ≢ digest other
      → length t.entries < t.max_entries
      → lookup (digest other) (fail digest t now key).entries ≡ lookup (digest other) t.entries
  unfolding fail
  fail_other_key t now key other ne room =
      let d = digest key in
      let e = failed_entry digest t now (lookup d t.entries) in
      let d' = erase d (insert d e t.entries) ++ (d, e) ∷ [] in
      rw
        (
          move_to_end-insert,
          pop_oldest_small t.max_entries d' (
              omega (
                arith,
                length-append (erase d (insert d e t.entries)) ((d, e) ∷ []),
                length-erase_of_some d e (insert d e t.entries) (lookup-insert_self d e t.entries),
                length-insert d e t.entries,
              )),
        )
        (ground (
          arith,
          lookup-append (digest other) (erase d (insert d e t.entries)) ((d, e) ∷ []),
          lookup-erase d (digest other) (insert d e t.entries),
          lookup-insert d (digest other) e t.entries,
          eq_iff d (digest other),
        ))

  -- Failures of one key, one after the other, at the given times.
  unfoldable pub fails : FailureThrottle → String → List ℕ → FailureThrottle
  fails t key [] = t
  fails t key (now ∷ ts) = fails (fail digest t now key) key ts

  -- Failures within a window that is open are added to its count.
  lookup-fails :
      (t : FailureThrottle) (key : String) (ts : List ℕ) (e : Entry)
      → IsValid t
      → lookup (digest key) t.entries ≡ some e
      → All (λ u. u < ends t e) ts
      → lookup (digest key) (fails t key ts).entries
        ≡ some (record { count = e.count + length ts; started = e.started })
  unfolding fails fail
  lookup-fails t key [] e v h ok = ground arith
  lookup-fails t key (u ∷ ts) e v h ok = ground (
    arith,
    lookup-fails (fail digest t u key) key ts (record { count = e.count + 1; started = e.started })
        (fail-IsValid digest t u key v),
    lookup-fail t u key v,
  )

  fails-limit :
      (t : FailureThrottle) (key : String) (ts : List ℕ) → (fails t key ts).limit ≡ t.limit
  unfolding fails fail
  fails-limit t key [] = refl
  fails-limit t key (u ∷ ts) = fails-limit (fail digest t u key) key ts

  fails-window :
      (t : FailureThrottle) (key : String) (ts : List ℕ)
      → (fails t key ts).window_seconds ≡ t.window_seconds
  unfolding fails fail
  fails-window t key [] = refl
  fails-window t key (u ∷ ts) = fails-window (fail digest t u key) key ts

  -- Within its window an entry blocks its key exactly when it counts `limit` failures.
  blocked_iff_count :
      (t : FailureThrottle) (now : ℕ) (key : String) (e : Entry)
      → lookup (digest key) t.entries ≡ some e
      → now < ends t e
      → (1 ≤ (retry_after digest t now key).0) ↔ (t.limit ≤ e.count)
  unfolding retry_after
  blocked_iff_count t now key e h inside = ground arith

  -- A key with no window that fails at `first` and then at `ts`, all before the window ends, is
  -- blocked within that window exactly when it has failed `limit` times.
  pub blocked_iff_limit_reached :
      (t : FailureThrottle) (key : String) (first : ℕ) (ts : List ℕ) (now : ℕ)
      → IsValid t
      → lookup (digest key) t.entries ≡ none
      → All (λ u. u < first + t.window_seconds * second) ts
      → now < first + t.window_seconds * second
      → (1 ≤ (retry_after digest (fails t key (first ∷ ts)) now key).0)
        ↔ (t.limit ≤ length (first ∷ ts))
  unfolding fails fail
  blocked_iff_limit_reached t key first ts now v free ok inside =
      let t' = fail digest t first key in
      let e : Entry = record { count = 1; started = first } in
      let found =
        lookup-fails t' key ts e (fail-IsValid digest t first key v)
          (ground (arith, lookup-fail t first key v)) ok in
      let iff =
        blocked_iff_count (fails t' key ts) now key
          (record { count = 1 + length ts; started = first }) found
          (rw (fails-window t' key ts) inside) in
      omega (arith, fails-limit t' key ts)

  -- `Retry-After` never exceeds the window, if the clock has not gone back since the window began.
  pub retry_after-le-window :
      (t : FailureThrottle) (now : ℕ) (key : String) {e : Entry}
      → IsValid t
      → lookup (digest key) t.entries ≡ some e
      → e.started ≤ now
      → (retry_after digest t now key).0 ≤ t.window_seconds
  unfolding retry_after
  retry_after-le-window t now key v h le = ground arith

  lookup-check :
      (t : FailureThrottle) (now : ℕ) (key : String) (e : Entry)
      → lookup (digest key) t.entries ≡ some e
      → now < ends t e
      → lookup (digest key) (retry_after digest t now key).1.entries ≡ some e
  unfolding retry_after
  lookup-check t now key e h inside = ground (
    arith,
    lookup-erase_self (digest key) t.entries,
    eq_refl (digest key),
    lookup-append (digest key) (erase (digest key) t.entries) ((digest key, e) ∷ []),
  )

  -- A client that is blocked and waits for `Retry-After` seconds and one millisecond more is no longer
  -- blocked.
  pub retry_after_suffices :
      (t : FailureThrottle) (now later : ℕ) (key : String)
      → now + (retry_after digest t now key).0 * second + 1_000_000 ≤ later
      → 1 ≤ (retry_after digest t now key).0
      → (retry_after digest (retry_after digest t now key).1 later key).0 ≡ 0
  unfolding retry_after
  retry_after_suffices t now later key waited blocked =
      elim (Option-cases (lookup (digest key) t.entries)) [
        | inl e ↦ absurd (ground arith)
        | inr (e, h) ↦ ground (arith, lookup-check t now key e h)
      ]

  -- After a success the key is not blocked, whatever it had failed.
  pub retry_after-reset :
      (t : FailureThrottle) (now : ℕ) (key : String)
      → (retry_after digest (reset digest t key) now key).0 ≡ 0
  unfolding retry_after reset
  retry_after-reset t now key = ground (arith, lookup-erase_self (digest key) t.entries)
