-- ===== src/Browser.antt =====
-- The browser client, ui/src: the modules that decide when the reader's state is saved, how its requests
-- are signed, retried and refreshed, and how what comes back is read.
pub mod Failures
pub mod Network
pub mod Fetching
pub mod R2Session
pub mod Validation
pub mod Records
pub mod SignedRequest
pub mod CryptoBlob
pub mod Base32
pub mod ReadingRecords
pub mod ReadingWrites
pub mod ReadingSession
pub mod ShareLinks
pub mod LibraryModel
pub mod LibrarySearch
