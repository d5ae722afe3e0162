-- ===== src/Lib.antt =====
-- sshnack: a vending machine. A server (server/) keeps balances, prices and stock in a SQLite
-- database and answers HTTP requests; a client in the terminal (tui/) makes them.
--
-- The modules, and the code that they are about:
--   Base      shared types: integers of 32 bits, byte strings, strtok, strtol and printf's %d
--   Radix     server/src/api/router/radix_tree/radix_tree.c: the tree of paths
--   Auth      server/src/api/auth.c: the bearer token
--   Api       server/src/api/api.c: from the bytes of a request to the request
--   Router    server/src/api/router/router.c: routes and `dispatch`, over Radix
--   Tables    the tables of init.sql, and what each SQL text of the server means for them
--   Sqlite    the calls of the SQLite library: a parameter, with its documented behaviour as laws
--   Services  server/src/services and server/src/db/db.c, over Sqlite
--   Ledger    the books over any sequence of service calls
--   Interleaved  the workers of the pool on the one SQLite connection: the calls of their services in
--             any order, also within each other's transactions
--   Handlers  server/src/api/router/handlers, over Services: what a request is answered
--   Server    server/src/api/api.c, `handle_client`: a whole connection, over Api, Router and Handlers;
--             Access and Guarded: what a request may change by its token;
--             and Accept: server/src/server.c, the start and the loop of `main`
--   App       tui/src/app.c: the application in the terminal, over the server's calls as a parameter
--   Threadpool  server/src/threadpool/threadpool.c: the list of work, the pool, its workers
--   Config    the functions `load_config` of server/src/server.c and tui/src/tui.c
--   Ui        tui/src/ui.c: what `ui_render` draws; the grid of the slots, and in Screen the rest
--   Terminal  tui/src/tui.c, `main`: over Config, Client, App and Ui
--   Client    tui/src/api_client.c: the paths and bodies of the client's requests, and its calls, with
--             libcurl and cJSON as parameters; they fill the interface that App takes
--   Wire      Client and Server together, over a network that is a parameter, up to the message that the
--             application shows
--
-- A service is a program (`Prog`) of SQLite calls, each of which may fail; `run` runs it against a
-- library. The laws of `IsSqlite` say what a call may do: a failure leaves the tables alone or
-- rolls the open transaction back. Sqlite/Faulty is a library that meets the laws and fails where a
-- list of faults says so. A function that writes through an `out` pointer returns the value with
-- its code. An `int` is an integer whose conversions from a larger type wrap (`to_int32`); a
-- statement that needs it says that the numbers of the tables fit (`InRange`). Memory that runs out
-- is an oracle in Radix, and of the array in Services/Products/Listing, where a row that is written
-- past the end is a result of its own; the tree is a value, so that freeing it has no counterpart.
-- The loops run over lists, but for the search of an occupied row in App/Cursor, whose fuel is a
-- round for each row and one for the test that ends it, for the header of a request in Api, whose
-- fuel is the length of the text, and for the digits of a number in Base/Number, whose fuel is the
-- number and one.
--
-- Not modelled: sockets, signals, what ncurses does with a mark, the end of the server's `main` and
-- the container files; strdup that gives NULL in the tree of paths, and a tree that `init_tree`
-- does not give; cJSON in extern/, which is third-party code. Except in Interleaved and Threadpool,
-- a service call runs alone. Interleaved asks that a call of SQLite that fails does not roll a
-- transaction back by itself (`IsSteady`), as another worker would then go on outside its
-- transaction; the loop over the rows of the list of the stock is one call there. In Terminal the
-- size of the screen does not change, and the keys are a list.
pub mod Base
pub mod Radix
pub mod Auth
pub mod Router
pub mod Tables
pub mod Sqlite
pub mod Services
pub mod Ledger
pub mod Handlers
pub mod App
pub mod Api
pub mod Client
pub mod Config
pub mod Threadpool
pub mod Server
pub mod Wire
pub mod Ui
pub mod Interleaved
pub mod Terminal
