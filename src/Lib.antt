-- ===== src/Lib.antt =====
-- A model of the Tor crawler and search engine of this repository, and what is proved of it.
--
-- The program is a Go backend: a crawler that fetches onion services through Tor's SOCKS port, a
-- PostgreSQL database that is its queue and its memory, and an HTTP API for accounts. A worker claims a
-- row of `nodes`, asks robots.txt, waits for its turn at the domain, fetches the page, and records the
-- page and its links, which are new rows. Accounts enqueue URLs within a quota; administrators ban
-- domains. Repeated network errors ask Tor for a new circuit.
--
-- Which file models what:
--   Onion            backend/internal/onion/url.go: IsV3Hostname, NormalizeHostname, IsV3Host, IsV3URL,
--                    NormalizeURL and validWebPort, under the same names. Base32 is RFC 4648; Address says
--                    what an address is; Spelling and Safety prove.
--   Database         backend/internal/database/db.go. Store holds the rows and the SQL that the statements
--                    share, Queue enqueues, links and claims, Retry resets, requeues and revives, Blacklist
--                    bans domains and saves pages. Operations puts them together as one type of requests.
--                    Keys, Rows, Refusal, Claims, Quota, Failures and Gaps prove.
--                    Reads is the queries of an account in db.go and privacy.go. Annotations is
--                    database/annotations.go: tags and notes, Watching the watches and their feed, Requests
--                    all of it as one type of requests. Retention is what removes crawl data in privacy.go.
--   Crawler          backend/internal/crawler: Engine is engine.go (waitForDomain, the cleanup of Start,
--                    onNetworkError), Worker is one turn of its worker loop over Engine, Robots and Database,
--                    Robots is robots.go, Extract the bounds of extract.go and scraper.go.
--   Proxy            backend/internal/proxy: TorController is tor_controller.go, Client is client.go.
--   Api              RateLimit is backend/internal/api/ratelimit.go, Input is part of httpx.go, Login is
--                    signing in and out in auth_handlers.go, Recovery registration, verification and the reset
--                    of a password there, Validate is validate.go, Gate is what a request passes before a handler:
--                    middleware.go, CSRFProtect of session.go, and the groups of router.go.
--   Auth             Totp is backend/internal/auth/totp.go, Passwords and Tokens are auth.go, SecondFactor is
--                    database/totp.go with verifySecondFactor of api/totp_handlers.go, Sessions is
--                    database/sessions.go, Users and Audit are the tables users and auth_audit in db.go and
--                    privacy.go.
--   Common           shared types and lemmas: byte strings, maps, base 16, lists over native numbers.
--   Tests            each result below that has hypotheses, at a concrete input.
--
-- State and operations. A struct, and a table, is a record; a method, and a transaction, is a function
-- from the old state and its arguments to the new state and the answer. A history is a list of calls in
-- the order in which the mutex, or the database, lets them through. A function that runs several
-- statements is one step of a history: it runs to its end before the next begins. Three do not, where
-- this matters: a login that counts the failures, and later logs its own (Api.Login.Budget), an AddTag
-- between its count and its INSERT (Database.Annotations.Tags), and the two statements of RequeueForCrawl
-- (Database.Gaps) also stand as separate steps, with others in between. Clock readings are arguments: they
-- are microseconds in Database, Auth.Users, Auth.Audit, Auth.Tokens, Api.Login, Api.Recovery and
-- Api.Gate, seconds in Auth.Totp, and nanoseconds elsewhere. Go maps are association lists, whose order
-- stands for the order of iteration. No definition needs fuel: every loop goes over a list or a text.
--
-- Parameters. Code that is not in this repository is an argument: the parsing and printing of URLs,
-- SplitHostPort, SHA3-256, SHA-256, HMAC-SHA1, HMAC-SHA256, Argon2id, bcrypt, base64, base32 of secrets,
-- Sscanf, the JWT library, full-text search, the lines of a robots.txt, the reading of floating-point numbers,
-- the Unicode tables, the answers of the rate limiters at a login, random texts. The only facts assumed of
-- them are that a digest has 32 bytes; what IsKdf says of base64, Sscanf and the length of an Argon2id key;
-- what IsJwt says of a token that the JWT library signed, and of its dates; and in one theorem that
-- SplitHostPort splits one text at its colon.
--
-- Not modelled: errors of the driver and of the connection, which end a function before it commits, but for
-- a count of the failures that fails, with which a login, a registration and a reset go on; the observations
-- of watches in the turn of a worker; foreign keys, but for the source of an edge and the account of a page;
-- PostgreSQL database that is its queue and its memory, and an HTTP API for accounts. A worker claims a
-- row of `nodes`, asks robots.txt, waits for its turn at the domain, fetches the page, and records the
-- page and its links, which are new rows. Accounts enqueue URLs within a quota; administrators ban
-- domains. Repeated network errors ask Tor for a new circuit.
--
-- Which file models what:
--   Onion            backend/internal/onion/url.go: IsV3Hostname, NormalizeHostname, IsV3Host, IsV3URL,
--                    NormalizeURL and validWebPort, under the same names. Base32 is RFC 4648; Address says
--                    what an address is; Spelling and Safety prove.
--   Database         backend/internal/database/db.go. Store holds the rows and the SQL that the statements
--                    share, Queue enqueues, links and claims, Retry resets, requeues and revives, Blacklist
--                    bans domains and saves pages. Operations puts them together as one type of requests.
--                    Keys, Rows, Refusal, Claims, Quota, Failures and Gaps prove.
--                    Reads is the queries of an account in db.go and privacy.go. Annotations is
--                    database/annotations.go: tags and notes, Watching the watches and their feed, Requests
--                    all of it as one type of requests. Retention is what removes crawl data in privacy.go.
--   Crawler          backend/internal/crawler: Engine is engine.go (waitForDomain, the cleanup of Start,
--                    onNetworkError), Worker is one turn of its worker loop over Engine, Robots and Database,
--                    Robots is robots.go, Extract the bounds of extract.go and scraper.go.
--   Proxy            backend/internal/proxy: TorController is tor_controller.go, Client is client.go.
--   Api              RateLimit is backend/internal/api/ratelimit.go, Input is part of httpx.go, Login is
--                    signing in and out in auth_handlers.go, Recovery registration, verification and the reset
--                    of a password there, Validate is validate.go, Gate is what a request passes before a handler:
--                    middleware.go, CSRFProtect of session.go, and the groups of router.go.
--   Auth             Totp is backend/internal/auth/totp.go, Passwords and Tokens are auth.go, SecondFactor is
--                    database/totp.go with verifySecondFactor of api/totp_handlers.go, Sessions is
--                    database/sessions.go, Users and Audit are the tables users and auth_audit in db.go and
--                    privacy.go.
--   Common           shared types and lemmas: byte strings, maps, base 16, lists over native numbers.
--   Tests            each result below that has hypotheses, at a concrete input.
--
-- State and operations. A struct, and a table, is a record; a method, and a transaction, is a function
-- from the old state and its arguments to the new state and the answer. A history is a list of calls in
-- the order in which the mutex, or the database, lets them through. A function that runs several
-- statements is one step of a history: it runs to its end before the next begins. Three do not, where
-- this matters: a login that counts the failures, and later logs its own (Api.Login.Budget), an AddTag
-- between its count and its INSERT (Database.Annotations.Tags), and the two statements of RequeueForCrawl
-- (Database.Gaps) also stand as separate steps, with others in between. Clock readings are arguments: they
-- are microseconds in Database, Auth.Users, Auth.Audit, Auth.Tokens, Api.Login, Api.Recovery and
-- Api.Gate, seconds in Auth.Totp, and nanoseconds elsewhere. Go maps are association lists, whose order stands for the order of iteration. No definition needs fuel: every loop goes over a
-- list or a text.
--
-- Parameters. Code that is not in this repository is an argument: the parsing and printing of URLs,
-- SplitHostPort, SHA3-256, SHA-256, HMAC-SHA1, HMAC-SHA256, Argon2id, bcrypt, base64, base32 of secrets,
-- Sscanf, the JWT library, full-text search, the lines of a robots.txt, the reading of floating-point numbers,
-- the Unicode tables, the answers of the rate limiters at a login, random texts. The only facts assumed of
-- them are that a digest has 32 bytes; what IsKdf says of base64, Sscanf and the length of an Argon2id key;
-- what IsJwt says of a token that the JWT library signed, and of its dates; and in one theorem that
-- SplitHostPort splits one text at its colon.
--
-- Not modelled: errors of the driver and of the connection, which end a function before it commits, but for a count of
-- the failures that fails, with which a login, a registration and a reset go on; the observations of watches
-- in the turn of a worker; foreign keys, but for the source of an edge and the account of a saved page;
-- PostgreSQL's refusal of a backoff interval beyond its range, which needs more than forty failures of one
-- row; the extraction of text and links from HTML; the export of annotations, the timeline, and the reads of
-- the privacy settings and the profile; the handlers for the second factor,
-- privacy, crawling and exports; client addresses, device labels and the cache of statistics;
-- email, logging and metrics; the programs and the migrations; the frontend.
pub mod Common
pub mod Onion
pub mod Proxy
pub mod Database
pub mod Crawler
pub mod Api
pub mod Auth
pub mod Tests
