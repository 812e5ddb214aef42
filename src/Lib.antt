-- ===== src/Lib.antt =====
-- A model of the backend of Pingvin Share (backend/src), a service to share files by links, and of the
-- browser's upload (frontend/src/pages/upload/index.tsx), with the theorems about them.
--
-- The program. Visitors and users send requests; guards (share/guard, file/guard) decide who may see a
-- share, its files or its settings; the services (share, reverseShare, file, auth, user, apiToken) read and write
-- the database through a client, sign tokens, hash passwords and keep files on a disk or in a bucket;
-- timed jobs (jobs) delete what has expired. A handler of the model is a function of the state that
-- returns an outcome, a value or an HTTP exception, with the state after it; what was written before
-- an exception stays written. The handlers run one at a time.
--
-- The files.
--   Prelude      numbers, texts, Boolean tests, lists.
--   Http         exceptions, outcomes and handlers; Http/Keeps, Stays and After: what a handler
--                leaves alone, what it keeps true, and what it brings about.
--   Prisma       the database client, a parameter with its documented laws; Prisma/Assoc: tables as
--                lists, to run the handlers.
--   World        the clock, the date arithmetic, the token signer, the password hasher and the
--                configuration, parameters too; World/Example: stand-ins to run the handlers.
--   Schema       the rows of backend/prisma/schema.prisma, and the state; Store: reads and writes.
--   Text, Dates  JavaScript's calls on texts; backend/src/utils/date.util.ts.
--   Ip           backend/src/share/shareIp.util.ts: normalizeIpv4 (Ip), serializeIpv6 (Ip/Run),
--                normalizeIpv6, normalizeIpAddress and getRequestIpAddress (Ip/Address).
--   FileStore    backend/src/file: the file service (FileStore), the local storage with the upload by
--                chunks (Local, Local/Disk, Local/Limits), the S3 storage (S3), the changes that the
--                file controller lets through, behind their guards (Controller), the samples of streams (Sample), and what one share's requests leave of another's files (Isolation).
--   WebView      backend/src/file/fileWebView.util.ts and sendFileWebView of file.controller.ts: the tables (Tables), the
--                descriptors (WebView), the samples of bytes (Sniffed), and the types that files are shown with
--                (Media, Shown).
--   Upload       frontend/src/pages/upload/index.tsx and frontend/src/utils/upload.util.ts: the loop
--                over the chunks of a file (Upload, Schedule), the requests that the guards let through (Admits), the chunks
--                (Pieces), the local storage's
--                side (Turn, Server), one round (Rounds) and all of them (Ends), and the same for the bucket
--                (Parts, ToBucket, BucketEnds).
--   Config       backend/src/config: configDefinitions.ts (Definitions, Variables, Sync) and
--                config.service.ts (Timespan, Checks, Service; Order, Periods); Retention: what the job on expired
--                shares does under periods that the configuration accepts.
--   Share        backend/src/share: the rules of time (Access), of addresses (IpAccess), the tokens
--                (Token), the guards (Guard), the security settings (Security, SecurityUpdate), and the
--                operations create (Create), complete and revertComplete (Complete), update (Edit, Edit/Bounded),
--                remove and expire (Remove), getShareToken and getFileList (Visit).
--   ReverseShare backend/src/reverseShare/reverseShare.service.ts and createShare.guard.ts.
--   Jobs         backend/src/jobs/jobs.service.ts.
--   ApiToken     backend/src/apiToken: the header, the throttler, the scope guard, the scopes (Scopes),
--                and the tokens from their creation to their revocation (Service).
--   Auth         backend/src/auth: the tokens, signInTotp, refreshAccessToken and resetPassword (Auth), the
--                LDAP server (Ldap), signUp, signIn, generateToken, requestResetPassword, updatePassword,
--                signOut and verifyPassword (SignIn), and the second factor (SecondFactor); what they come to
--                (Once, Granted, Passwords, Sessions, Enrolled), and what they leave of users (Stays).
--   Users        backend/src/user/user.service.ts: delete (Users), create, update and findOrCreateFromLDAP
--                (Manage) over the unique columns of the table (Rows); Admins; what holds of every user
--                (Every, Stays).
--   Oauth        backend/src/oauth: the service and its guards (Oauth); the search for a username (Names), the
--                links (Links, Untouched, Once), the users signed in (Signed), and Stays.
--   Accounts     sequences of the calls of Auth, Users and Oauth (Accounts): the second factors (Sound) and the
--                links (Untouched, Links).
-- Each folder's Tests modules run the definitions and apply the theorems to concrete data.
--
-- The state. Db has a table for each kind of row, the directories on the disk and in the bucket with the
-- bytes of their files, and the list of what was started and not waited for (mails, zips, scans). A row is found under its key
-- and does not repeat it; a share's security row with its addresses is a field of the share. Dates are
-- milliseconds since 1970, `moment(0)` is 0 and means never; an Invalid Date of JavaScript is `none`,
-- and no date is before 1970. A handler reads the clock once.
--
-- Bounds. Nothing of the modelled backend runs without a bound: loops are over lists, and the decimal
-- text of a number has fuel n + 1, which is more than its digits. The search for a username has two
-- rounds more than the longest username has characters (Oauth/Names). The upload's loop in the browser goes
-- on until the network lets it end; it runs over a schedule that says what becomes of each request, and
-- after the losses one round more than the file has chunks is enough (Schedule).
--
-- Not modelled: the exchanges with the servers of OAuth's providers, cookies and redirects, the config.yaml,
-- the zips, the listings, the rest of the controllers, the virus scanner and the rest of the frontend. They are not
-- read by the handlers above except through the parameters and the state.
pub mod Accounts
pub mod Oauth
pub mod Prelude
pub mod Http
pub mod Prisma
pub mod Text
pub mod Ip
pub mod World
pub mod Dates
pub mod Schema
pub mod Store
pub mod FileStore
pub mod Share
pub mod ReverseShare
pub mod Jobs
pub mod ApiToken
pub mod Auth
pub mod Config
pub mod Upload
pub mod WebView
pub mod Users
