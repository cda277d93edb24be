-- ===== src/Lib.antt =====
-- Simple Calls: a web application that edits the call flow of a telephone system and writes the
-- configuration of Asterisk for it. A topology is a graph of nodes (extensions, menus, ring groups,
-- queues, opening hours, mailboxes), of edges between them and of memberships. The editor changes it
-- behind an undo history and sends it to the backend. There the validator looks for errors, the
-- database keeps each revision with its encrypted passwords, the generator translates a valid
-- topology into four configuration files, a deployment activates them in Asterisk or takes them back,
-- and the status service keeps what Asterisk reports of each node. Accounts with roles and sessions
-- guard the backend.
--
-- The files and what they model:
-- - Base and its children are shared: Boolean tests, lists, members, texts (Search is search in them,
--   Join their joining by commas), and Entries a Map of JavaScript.
-- - Model: the types of shared/src/types.ts. The members of the union PbxNode are the constructors of
--   Properties. Model/Numeric has the numbers of a JSON document.
-- - Json: JSON values, and safeDetails of backend/src/model/database.ts.
-- - Documents: shared/src/topologyFormat.ts.
-- - Names: sanitize, endpointName, nodeId and ctxId of backend/src/asterisk/configGenerator.ts.
-- - Schedule: isScheduleOpen of shared/src/schedule.ts, of the local parts of an instant.
-- - Validator: shared/src/validator.ts. Issue has the issues and hasErrors, Pass the loops that carry
--   sets, Extension, Nodes and ScheduleNode are validateNodes and what it calls, Transitions and Edges
--   are validateEdges, Memberships has the two checks of memberships, Cycles is findUnsafeCycles,
--   Topology is validateTopology behind the test of the shape, and Shape is validateTopologyShape.
-- - Generator: configGenerator.ts. Values has display and configValue, Routes the search for edges
--   and members, Endpoints the files of PJSIP and voicemail, Queues that of the queues, Schedule and
--   Callflow the dialplan of each node, and Files the file of the extensions and generateAll.
--   The decisions of scheduleDialplan are values of Application, which are written line by line.
-- - Security: Cipher is SecretCipher of backend/src/security/crypto.ts; Auth has login, logout,
--   requireRole and csrfProtection of backend/src/security/auth.ts.
-- - Database: the class PbxDatabase of backend/src/model/database.ts. Store has the tables, the errors
--   and the log of events; Secrets the encrypted passwords; Summary the text of a change; Revisions
--   saveTopology, pruneRevisions and the queries of revisions; Edits the operations that save a
--   changed topology; Deployments the log of deployments; Initial, Seed and Startup what happens when
--   the database is opened; Users, Sessions and Logins the accounts; Rotation rotateSecrets. Invariant
--   is about the tables that these operations reach.
-- - Deployment: backend/src/asterisk/deploy.ts. Configs tests the generated files, Health the answers
--   of Asterisk, Staging writes a version of the files, and Run is deployTopology.
-- - History: frontend/src/historyState.ts. An Operation is a call of the hook in
--   frontend/src/history.ts.
-- - Status: the map of statuses of backend/src/asterisk/status.ts. Events has onMessage and Messages
--   how it reads a message.
-- - Tests: the results at concrete inputs, and runs of the code.
--
-- How the code is read:
-- - A loop that adds to sets is a function that passes the sets on; a loop that appends issues or
--   lines returns them. What throws returns an Outcome or a Result.
-- - An operation of the database takes the tables and returns them. One that throws leaves them as
--   they were, since it is a transaction or throws before its first write; a constraint of SQLite that
--   fails is the error `constraint`. Rows stand newest first. The clock is read once for an operation,
--   as `now`. A stored topology is the topology itself, as JSON.stringify and JSON.parse give it back.
-- - A deployment works on the versions, the two links, the tables and the loaded version of Asterisk;
--   whether a command or a write of a file succeeds is given by Calls.
-- - Of an issue the severity, the code and the ids are modelled, the wording is not. A map whose
--   values only word messages is the list of its keys.
-- - A text is a sequence of code points. Where the code counts or compares UTF-16 units, so do the
--   definitions (units, unit_rank); lone surrogates cannot be written.
-- - Of the count of a queue event decimal digits are read; any other text counts as 0, where the code
--   may write NaN or a fraction.
-- - A number is an integer, or a fraction with the text that it prints as. A time is read as HH:MM,
--   which the validator asks for before anything else reads it.
-- - The walk of the cycle search is on fuel, one more than there are nodes: a path has at most one
--   edge for each node. The limit of 5000
--   cycles is that of the code. Decimal digits are on fuel, one more than the number.
-- - Parameters stand for what is not in the repository: the names of time zones that Intl knows and
--   the dates that Date.parse reads (Platform), AES-256-GCM and SHA-256 (Gcm), MD5 and the digest of
--   tokens, random bytes and ids, the comparison of two documents by JSON.stringify, JSON.parse,
--   GotoIfTime of Asterisk, and what Asterisk and the file system answer (Calls). The check of a
--   password by scrypt is a parameter too.
--
-- Not modelled: the reconnecting of the status service, the parser and the socket of the AMI client,
-- the corruption that a test environment asks of a deployment, listUsers and the modes of the database
-- file, cookies and the routes of accounts, scrypt of backend/src/security/password.ts, the backup
-- archive and the sounds, the HTTP routes, the command line tools, the React views and the scripts.
-- They are input and output, glue, or left for later.
mod Base
pub mod Model
pub mod Database
pub mod Deployment
pub mod Documents
pub mod Json
pub mod Names
pub mod Schedule
pub mod Security
pub mod Status
pub mod Validator
pub mod Generator
pub mod History
mod Tests
