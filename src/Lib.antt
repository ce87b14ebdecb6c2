-- ===== src/Lib.antt =====
-- txt is a reader of encrypted books. Its worker, on Cloudflare, keeps an owner's documents, bookmarks
-- and shares in a D1 database and an R2 bucket and sees no plaintext; its browser client encrypts what it
-- stores and signs what it changes. The parts of the worker, and the files that model them:
--
--   Api            worker/api.ts: the table of routes, the match of a path, `resolveAccess`,
--                  `authorize` and `handleApi`, which calls every other part.
--   Access         worker/access.ts: `verifyAccessJwt`.
--   Ticket         worker/ownerTicket.ts: `issueTicket`, `verifyTicket`.
--   OwnerProof     worker/ownerProof.ts: `buildCanonicalProofBytes`, `verifyProof`.
--   RequireProof   worker/requireProof.ts: `requireProof` and the status of each failure.
--   Documents      worker/documentsEndpoint.ts: the reads and the three writes of reading state.
--   Bookmarks      worker/bookmarksEndpoint.ts: the listing, the summary, POST and DELETE.
--   Shares         worker/sharesEndpoint.ts: listing, registration, revocation.
--   ShareGrant     worker/shareGrant.ts and worker/shareValidation.ts.
--   SharedUrl      worker/sharedUrlEndpoint.ts: the redemption that is open to everyone.
--   R2Credentials  worker/r2CredentialsEndpoint.ts.
--   Owner          worker/ownerEndpoint.ts, catalogEndpoint.ts and libraryEndpoint.ts.
--   Base64         worker/base64.ts.
--   Errors         worker/d1Errors.ts and the exceptions of every part.
--   Http           worker/requireVar.ts, worker/env.d.ts, requests and responses.
--   Database       worker/migrations/: a list for each table; its children hold the statements that the
--                  endpoints run, with the triggers that these fire, and what they keep.
--
-- The parts of the browser client, under Browser:
--
--   ReadingSession ui/src/data/readingState.ts: when the position in an open book is saved.
--   ReadingRecords, ReadingWrites  ui/src/data/libraryStore.ts: the secret of a document, the sealed
--                  reading state and its writes, which meet version conflicts of the worker.
--   SignedRequest  ui/src/data/ownerProof.ts and the bodies of apiClient.ts: `signOwnerProof`.
--   CryptoBlob     ui/src/crypto/cryptoBlob.ts and aead.ts: the format of encrypted blobs.
--   Network        ui/src/data/networkRequest.ts: timeouts and retries; Failures has its errors.
--   Fetching       `fetchSameOrigin` of ui/src/data/apiClient.ts and the reads of r2.ts.
--   R2Session      ui/src/data/r2Session.ts: the renewal of the credentials of the bucket.
--   Validation, Records  ui/src/util/validation.ts and the parsers of ui/src/data/apiClient.ts.
--   ShareLinks     ui/src/data/shares.ts and sharedReader.ts: the material of a share, its link and what a
--                  reader takes from the link; `URLSearchParams` is the parameter `SearchParams`.
--   LibraryModel, LibrarySearch  ui/src/screens/Library/libraryModel.ts: order, browsing and search of
--                  the loaded books; the locale, Unicode and fuse.js are the parameter `Texts`.
--   Base32         ui/src/util/base32Crockford.ts.
--
-- SignedRequest and Records meet the worker: what the one signs is given to `require_proof`, what the
-- worker answers with is given to the other.
--
-- Prelude has the shared names, lists and texts, Json the values of bodies, Tests the samples and the
-- runs of the theorems at concrete inputs.
--
-- A handler is a `Program` of Effects over the `World`, the database and the objects of the bucket.
-- Each D1 statement or batch and each R2 call is one atomic step. `run` lets a program run alone;
-- `run_among` lets other requests change the world between its steps. A function that may throw gives a
-- `Try` or a `Program` that ends in an exception; an early return with a response is a `Checked`. The
-- camel case names of the source are in snake case here. A handler's parse of its body stands apart
-- from what it does with the result.
--
-- JSON, `Number` of a text, UTF-8 decoding, WebCrypto and the signers of jose and aws4fetch are the
-- record `Platform`, an argument of all that uses them; the primitives of the browser's encryption
-- are the record `Crypto`. A theorem names the laws that it needs. The clock, random bytes, the JWKS
-- and the R2 deletion are arguments too. A request of the browser is an `Operation` on a state of
-- the caller's choice, which also tells its time; the callbacks of a reading session's timers are
-- events of a trace, and the trace has them run at any time from when they are due.
--
-- Bounds: an integer of JavaScript is exact here, as it is below 2 ^ 53; the 64-bit expiry keeps its
-- octets modulo 256. The loops of the worker are structural recursion, over chunks, characters or rows.
-- The retries of Network count down from three and the attempts of ReadingWrites from three, as in the
-- source. `emit` of Base32 has the number of bits as its fuel, and each round takes five of them.
--
-- Not modelled: failures of D1 other than those of its constraints; the CHECK on the length of a hash,
-- since every hash is a SHA-256 digest; the fetch and the cache of the JWKS; the log and the timing
-- (worker/index.ts, d1Logging.ts, requestTiming.ts, formatMs.ts); the screens of ui/; the uploads and
-- downloads of shares; the unlocking of the owner's keys; the part of libraryStore.ts that loads the
-- library; the EPUB reader and the SQLCipher loader, which drive other packages;
-- a second caller that joins a refresh of R2 credentials in flight; the Python command line tool; the
-- SQLCipher build. The table of documents is kept in the order of ids, the one of bookmarks newest first.
-- A share's id is checked for uniqueness before its path.
pub mod Prelude
pub mod Base64
pub mod Browser
pub mod Json
pub mod Errors
pub mod Database
pub mod Effects
pub mod Http
pub mod Platform
pub mod Documents
pub mod Bookmarks
pub mod ShareGrant
pub mod Shares
pub mod R2Credentials
pub mod SharedUrl
pub mod Ticket
pub mod OwnerProof
pub mod RequireProof
pub mod Access
pub mod Owner
pub mod Api
pub mod Tests
