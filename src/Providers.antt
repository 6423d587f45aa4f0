-- ===== src/Providers.antt =====
-- The provider adapters of src/providers/: the errors that they raise.
pub mod Errors
pub mod EventStream
pub mod Requests
pub mod ApiBase
pub mod Registry
pub mod Values
pub mod Catalog
pub mod Adapter
pub mod OpenRouter
