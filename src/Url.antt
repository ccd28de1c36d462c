-- ===== src/Url.antt =====
-- httpx2/httpx2/_urlparse.py: validation and normalisation of URLs.
pub mod Path
pub mod Quote
pub mod Split
pub mod RoundTrip
pub mod Parse
