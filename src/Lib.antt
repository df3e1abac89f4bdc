-- ===== src/Lib.antt =====
-- The backend of the EVerest user interface: a web server that holds the account of the device, and
-- the files that it shares with the API process. The model follows the C++ sources under backend/.
--
-- The parts, and how they work together; the modules of a part that are not named here hold theorems:
--
-- - Base: texts as lists of code units, trimming and splitting, association lists for QHash and QMap,
--   integers, and JSON values as QJsonValue shows them.
-- - Qt: what the code takes from Qt, as the parameter `Qt`, and its documented behaviour, as the
--   hypothesis `QtLaws`: `isSpace`, `toLower`, SHA-512, base 64, and the JSON reader and writer.
-- - Auth: backend/webserver/auth/AuthManager.{hpp,cpp}. Auth/State has the record of the members and
--   the checks of a name and a password; Auth/File has `load` and `save`; Auth/Manager has
--   `createUser`, `authenticate` and `resetUser`; Auth/Session has the session calls.
-- - Reset: backend/webserver/auth/PasswordReset.{hpp,cpp}. A process may reset the account once in a
--   boot, soon after a cold start. Reset/State has the members and `reason`, Reset/Marker the register
--   that tells a cold start, Reset/File the state file, Reset/Process `initialize`, and Reset/Calls
--   `status` and `reset`, which calls the manager of Auth.
-- - Config: backend/config/LayeredConfig.{hpp,cpp}. Config/Line has `parseLine` and `readFile`,
--   Config/Layers `load`, Config/Store the store that keeps the last valid snapshot, and
--   Config/Overlay `writeOverlay`.
-- - Login: backend/config/LoginState.{hpp,cpp}. The launcher opens the login, and the API process
--   closes it before a reboot.
-- - Http: backend/webserver/http/RequestParsing.{hpp,cpp}. Http/Request says whether a whole request has
--   arrived, with the length that its header names, and Http/Headers reads its request line, headers
--   and cookies (`isRequestValid`). Bytes are code units; an `int` sum wraps around.
-- - Server: backend/webserver/http/StaticServer.{hpp,cpp}, RequestSecurity.cpp, StaticContent.cpp and
--   `isWebSocketUpgradeRequest` of RequestParsing.cpp. Server/Security has the checks of host and origin,
--   Server/Upgrade the test for a WebSocket, Server/Content `loadFile`, Server/State the members and the
--   login state, Server/Account `handleAuthRequest`, and Server/Route `handleRequest`, which reads a
--   request by Http and calls Auth, Reset and Login. Server/Keeps has the lemmas on the account.
-- - Proxy: backend/webserver/ws/WebSocketProxySession.{hpp,cpp} and
--   backend/webserver/ui/UiOccupancyTracker.{hpp,cpp}. The web server passes the messages of a browser
--   on to the API process, for one browser at a time. Proxy/Session has the tracker, the constructor
--   and the ways in which a session closes, and Proxy/Events the slots. Proxy/Local and Proxy/Occupancy
--   are about who holds the interface; Proxy/Queue, Bounds, Order, Flow, Quiet and Delivery follow the
--   messages of one session.
-- - Api: backend/api/RequestResponseTypes.hpp and backend/api/libs/ResponseBuilder.cpp, the requests
--   and responses inside the API process.
-- - Router: backend/api/RequestHandler.{hpp,cpp}, at the socket of the API process. Router/State has the
--   members and the table of the open requests, Router/Send the response that waits for its
--   acknowledgement and `setSocket`, Router/Respond `enqueueResponse` and `enqueuePcapChunk`, and
--   Router/Message `handleTextMessage`. Router/Runs is a life of the object.
-- - Control: backend/api/SystemControlHandler.{hpp,cpp}, which gives one request at a time to a module.
--   Control/State has the members and `startRequest`, Control/Queue `processQueue` and the handling of
--   a response, and Control/Events `enqueueRequest`, the keep-alive, and the slots of the factory reset.
-- - Factory: backend/api/modules/FactoryResetRuntime.{hpp,cpp}. Factory/Evse has the guard,
--   Factory/State the members and `handleRequest`, and Factory/Events the slots. A reset that succeeds
--   closes the login by Login.
-- - Firmware: backend/api/modules/FirmwareUpdateRuntime.{hpp,cpp}. Firmware/State has the members and
--   what the calls of other code return, Firmware/Upload the three requests of an upload, and
--   Firmware/Install the installation, its output, and the reboot. What the receiver of the last
--   response does to the object is a parameter of `handle_streaming_finished`.
-- - Tests: the parameters at concrete functions, and the theorems at concrete inputs.
--
-- Conventions. An operation takes the state before it and returns the state after it with its result.
-- The file system answers by flags, in the records named `...Calls`: each says whether one call
-- succeeded. A file is missing, unreadable, or has contents; a `QSaveFile` replaces the file at its
-- commit alone; the marker is written in place, and perhaps in part. The UTF-8 coding between a
-- `QString` and the bytes of a file is left out: contents are the text. Error messages are
-- constructors without their parameters, and log lines are left out. The clock is read where the
-- source reads it, and each reading is its own argument; a failed reading of the boot clock is `none`.
-- A time is a natural number of milliseconds and is not bounded, because no reading comes near 2^63.
-- The random generator is a function from the number of the call to its value. A slot of the proxy
-- takes the event, its session and the tracker, and what it does to the two sockets is a list of
-- outputs; `happens` says when Qt can call it. Lookups of QHash and QMap go to an association list
-- whose order nothing observes.
--
-- In the API process an event is a function of the members and of what the code of others answers in
-- it; an exception is `none`, of a module too. A request id is an integer that a double holds exactly.
-- A module that runs an event loop of its own inside a call is taken as one step: the requests that
-- arrive in it wait in the queue, because one is pending.
--
-- Every function but one is by structural recursion. The loop of `createSession`, which draws tokens
-- until one is unused, recurs on fuel: the rounds up to the first unused token are enough;
-- `runs_out` of Server/Route is a login whose fuel did not reach it.
--
-- Not modelled: `noSymlinks` walks up the directories and is a flag; `pathsFor` and `writeOverride`
-- read environment variables; the permissions of a file; and the other components of the backend: how
-- the web server writes to its sockets, the other modules of the API, whose answers are arguments of
-- the events of Control, and the launcher.

pub mod Base
pub mod Qt
pub mod Api
pub mod Factory
pub mod Control
pub mod Router
pub mod Firmware
pub mod Auth
pub mod Reset
pub mod Config
pub mod Login
pub mod Proxy
pub mod Http
pub mod Server
mod Tests
