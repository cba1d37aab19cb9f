-- ===== src/Lib.antt =====
-- A trip archive: recorded and planned hikes and rides behind one shared password, served to a
-- browser and exported to QMapShack databases. Modelled are the parts with a logic of their own.
--
-- The export to QMapShack (src/server/qmapshack/). An exported track or waypoint is one blob: a
-- history of events, whose current one holds a chunk with a magic, a version and the compressed
-- fields. The exporter writes it with `QtWriter`; the test oracle, a strict decoder, reads it with
-- `QtReader` and accounts for every byte.
--   Qmapshack/Words, Utf16   Rust's byte orders and UTF-16, on numbers
--   Qmapshack/Crates         the crates `time`, `flate2` and `md5`, as parameters with laws
--   Qmapshack/Qtstream       src/server/qmapshack/qtstream.rs; a method of `QtWriter` is a function
--                            of the bytes so far, `▸` is one write after another
--   Qmapshack/Blob           src/server/qmapshack/blob.rs and, in Blob/Waypoint, blob/waypoint.rs
--   Qmapshack/Reader         `QtReader` of decode.rs; a read is a state passing function into
--                            `Result`, where the `anyhow` contexts are left out
--   Qmapshack/Decode         the rest of decode.rs and, in Decode/Waypoint, decode/waypoint.rs
--   Qmapshack/Carries        what it means that a read takes back what a write puts down, with a
--                            rule for each primitive and for a sequence of them
--   Qmapshack/RoundTrip      a decoder takes back what the exporter builds
--   Qmapshack/Strict         what the decoder refuses
-- The items of the target database and what a run writes to them (src/server/qmapshack/).
--   Qmapshack/Target         target.rs: `items` and `folder2item` as lists in the order of their ids,
--                            with the triggers on `trash`; Target/Reads and Target/Keeps are the
--                            lemmas on its writes
--   Qmapshack/Reconcile      `reconcile_item` of reconcile.rs, for a folder that is found
--   Qmapshack/Removal        `remove_stale_items` of reconcile.rs
--   Qmapshack/Folders        `ensure_folder_path` of target.rs and `Folders` of reconcile.rs;
--                            Folders/Found is what is at a path, Folders/Cached the memory
-- An item's blob is opaque there. A fault of the database is left out but for a key that is taken and
-- for a removal, which is counted and not fatal: a test says of which items it fails.
--
-- A float is its 64 bits, a text its scalar values. The decoder's loops take their count from the
-- stream and are recursive in it, so there is no fuel. `Vec::with_capacity` is left out.
--
-- The gate (src/server/auth.rs, src/server/session.rs). A request is a share's if its path says so
-- and is opened by that link alone; any other is the owner's if a cookie or a bearer token carries
-- a signed expiry that lies ahead, and is refused otherwise unless its route is public.
--   Text                     the methods of `str` that the gate calls, and i64 as decimal digits
--   Auth/Crates              Argon2id, HMAC-SHA256, the clock and `http`, as parameters with laws
--   Auth/Lockout, Login      `LoginFailures` and `Auth::login`; the state behind the mutex is
--                            passed on, so attempts are one after the other
--   Auth/Token               `Auth::mint`, `verify` and what they call
--   Auth/Headers             the cookie and the `Authorization` header, and `resolve`
--   Auth/Types, Gate         requests, responses and `gate`; the router `next` and the database are
--                            one state `W` that `next` changes and `resolve_share` reads
--   Gate/Safety, Strangers   who the gate runs the router for; Gate/Routes is the allowlist
--   Auth/Handlers            the handlers that sign in and out
-- An instant is its nanoseconds since 1970; `now + SESSION_TTL` past the year 9999 is not
-- modelled, and neither are the panics of `expect` on constants. A decimal number takes 20 rounds,
-- enough for 64 bits. A text's bytes are compared as its scalar values, which decide them.
--
-- The trip list's filter (src/server/filter.rs) and the closed sets (crates/types/src).
--   Types                    activity_type.rs, trip_kind.rs, komoot_privacy.rs, tag.rs and the filter
--                            of link.rs; a `match` on a text is the list of its arms
--   Filter                   the parameters of a query and `parse_filter`; Filter/Valid says what a
--                            filter promises. The arithmetic of f64, the tables of lower case and
--                            the dates of the crate `time` are the parameter `Tables`, without laws
--
-- The synchronisation with Komoot (src/server/komoot_sync.rs, komoot_sport.rs, repo/komoot.rs). A push
-- sends what is pending, a pull imports tours one by one, each in a transaction of its own.
--   Komoot/Archive           the tables `trip` and `trip_komoot_link` as lists of rows, and every
--                            statement on the latter; Archive/Trips has the writes of repo/trip.rs
--                            and repo/bulk_edit.rs that concern links, Archive/Valid the invariant
--   Komoot/Sport, Photo      komoot_sport.rs, and `resolve_photo_url` of server/komoot.rs
--   Komoot/World, Service    the state that a run passes on: the archive and whatever is outside,
--                            which each call may change and each may fail; `KomootClient`, the
--                            driver of the database and the pipelines for tracks and photos are
--                            parameters, of which a theorem names what it assumes
--   Komoot/Database          statements as such calls, and transactions
--   Komoot/Listing           the pages of a listing, on fuel: one page more than the account fills
--                            is enough
--   Komoot/Tour, Pull, Push  `sync_one_tour`; candidates, selection and backfill; edits, deletions
--   Push/Delivered           the journal of what Komoot has accepted, and that of a push
--   Komoot/Throttle          server/komoot/rate_limit.rs: the throttle's state, and a sequence of its
--                            calls as the slots and the instants at which requests are sent,
--                            which are later by what a sleep lasts too long; an Instant has no
--                            upper bound
-- Rows are read in the order in which they came, where the source names no order. What other tables
-- hold of a trip is left out, as is the search for links to propose after an import.
--
-- The access log (src/server/access_log.rs, access_log/writer.rs). A request leaves one record, with a
-- share's token blanked out, in a bounded queue; one task stores the records in batches.
--   AccessLog                the record, and `redact`; AccessLog/Redaction is what that hides
--   AccessLog/Writer         the queue and the task's loop as steps, one for each thing that can
--                            happen between two awaits; a batch is stored or lost as a whole
--   Writer/Order, Drain      what holds in every schedule; the task left to itself, with fuel for
--                            three rounds a message and two more, which is enough
--
-- The trip list of the user interface (crates/ui-dioxus/src/kinds.rs, picked.rs, date_range.rs).
--   Ui/Kinds                 the toggles, a Boolean for each, and their parameter in the address
--   Ui/Picked                the selection and the actions on it; Picked/Pairs counts what is linked
--   Ui/DateRange             the months of the date slider and its handles; the crate `time` is a
--                            parameter with laws for the years 0 to 9999
--
-- Shared are Prelude (lists, tests, integers on native numbers) and Text. Not modelled are the rest of
-- the repository's SQL, the import of GPX files, the HTTP client of Komoot, the photo pipeline,
-- the spatial queries and the rest of the user interface.
pub mod Prelude
pub mod Qmapshack
pub mod Text
pub mod Types
pub mod Filter
pub mod Komoot
pub mod Auth
pub mod AccessLog
pub mod Ui
