-- ===== src/Lib.antt =====
-- rpcxx: JSON values, MessagePack and JSON-RPC over asynchronous transports.
--
-- The program has three layers. The lowest (include/json_view, src/json_view) holds JSON values and
-- reads and writes them as MessagePack and as JSON text. Beside it stands the library of promises and
-- futures (include/future, src/future.cpp), through which the calls are answered. On it stand the messages of JSON-RPC (include/rpcxx/protocol.hpp),
-- in the full and in a shortened form. The highest layer (src/rpcxx) has the transport, which keeps the
-- calls that wait for a response, times them out and serves the requests of the peer; the handler, which
-- routes a method to the handler that owns it; and the client, which prefixes methods and collects
-- batches. A client calls its transport through IClientTransport.
--
-- Prelude holds what the modules share: tests on numbers, lists over the native numbers, integers, and
-- texts as lists of bytes.
--
-- Json: Value has the values of include/json_view/data.hpp (integers at their value, a double as its 64
-- bits, strings and binaries as bytes); Key the order of keys (KeyLess, KeyEq); Object a sorted object
-- and SortedInsertJson of include/json_view/algo.hpp; Find the binary search (sortedFind, FindVal);
-- Shape the measures on values; Access the checked accessors (At, Value, GetString, Get), with an
-- exception as a value of Result and without its trace; Algo Copy, DeepEqual and, in Flat, Flatten of
-- src/json_view/algo.cpp, where what is asked of doubles is a parameter (near, near_int, is_nan, is_inf);
-- Pointer FromString and JoinInto of src/json_view/pointer.cpp, with the default separator (Decimal is about the digits of an
-- index), and with
-- Iterate DeepIterate (include/json_view/pointer.hpp) and Find at a pointer (src/json_view/json_view.cpp).
--
-- Convert has the conversions of include/json_view/json_view.hpp between an application's types and JSON, a
-- type described by a record of the two directions and a struct by its fields; Integers, Containers and
-- Structs are about them. Mut has BasicMutJson of include/json_view/json.hpp in the configuration of MutableJson, a tree that is
-- written as the value that it holds: Copied is about copy and View, Patch about MergePatch, Assign about
-- Assign, Destroy about the loop of Destroy. The stack of that loop gets as much fuel as the tree has
-- values.
--
-- Membuff: include/membuff/membuff.hpp, the buffers that the writers and parsers use, with the loops of
-- Write (Written) and Read (Unread). A Grow is a parameter of Write, IsSink what is asked of it, which
-- those of StringOut and FuncOut meet. The loop of Write gets as many rounds as it has bytes to write,
-- since each round writes one at least.
--
-- Arena: include/json_view/alloc.hpp, an arena as blocks with a place in them, the addresses of blocks a parameter; Apart
-- is about one step, Served and Freed about runs. The values of Json do not say where in an arena they lie.
--
-- Rc: include/rc/rc.hpp, the counted pointers Strong as variables that stand in a list, and the counts of
-- DefaultBase; Counted is about runs of their operations.
--
-- MsgPack: Big has the byte order (toBig, fromBig); Dump the writer, src/json_view/dump_msgpack.cpp;
-- Parse the parser, src/json_view/parse_msgpack.cpp. maxDepth is the recursion bound of both, as in the
-- source, and needs no other fuel. Two things that the parser uses are parameters: `widen`, the bits of
-- a float as a double, and `fits`, whether the arena serves a request for that many elements. Encode is
-- a description of the format without a depth; Heads, Leaves and RoundTrip compose the two directions;
-- Post, Parts, Loops and Sound are about arbitrary input, Local and Fronts about which bytes a run reads.
--
-- Rpc.Protocol: Formatter, UnpackSingleRequest and UnpackSingleResponce for both protocols.
-- Rpc.Transport: src/rpcxx/transport.cpp seen from the client. A promise is a number that names it, and
-- a method gives the new state (Impl) with the actions it takes. Calls has the runs, Table, Invariant,
-- Promises and Response the proofs. The text that a value is dumped to is the parameter `dump`.
-- Rpc.Batch: handleServerBatch and addBatchResp of the same file, as a run of events, since the handler
-- may answer at any time, also while it takes a notification; the text of an exception is the parameter `what`.
-- Rpc.Receive: the way of a message through the same file, Receive to the handler or to a promise, and
-- sendResult back.
-- Rpc.Handler: src/rpcxx/handler.cpp. Handlers form a graph that may have cycles, so that `handle` takes
-- a number of visits; where OnForward, a parameter, leaves the method as it is, one more than its bytes
-- is enough.
-- Rpc.Client: src/rpcxx/client.cpp and include/rpcxx/client.hpp, over any transport.
-- Rpc.Server: src/rpcxx/server.cpp, the methods, middlewares and exception handlers of a server, with what
-- the application's middlewares and handlers do as parameters. Typed has the methods with typed arguments of
-- include/rpcxx/server.hpp, over Json.Convert. Forward
-- has OnForward and OnForwardNotify, with what IHandler::Handle and HandleNotify of src/rpcxx/handler.cpp do
-- behind them; Ran describes which middlewares have run.
--
-- Future: include/future/future.hpp and src/future.cpp. Cell has the state that promises and a future
-- share (Base, Data) and its locked sections; Shared lets several threads use one state, a step for each
-- locked section, with Phase and Sound about all orders of steps and Refines against a future as its users see
-- it. Chain has the heap of all states, a state named by its number, and the loop of continueChain;
-- users' functions are the parameters `call` (by the number of the function) and `last_throws`. The loop
-- takes fuel, and Chain.Ends shows how much is enough: Install gives it that much. Install has Then, Try,
-- AtLast and the call of a promise; Linked, Delivered, Results, Grown and Attached follow a chain. A
-- function that is called does nothing but return, a future that it returns exists before. Gather has
-- include/future/gather.hpp, on the results of its parts. Multi has include/future/multi_future.hpp and
-- include/future/cancel_token.hpp, a state and what each of its promises was called with.
--
-- JsonText: src/json_view/dump_json.cpp and src/json_view/parse_json.cpp, up to the calls on RapidJSON's
-- writer and from its reader. Dump has visit, Sax the handler, Events what the text in between is
-- expected to do (IsReader); Built, RoundTrip, Deep and Bounds are about the handler.
--
-- Codegen: codegen/src/populate.cpp, with Type and AST of codegen/include/codegen.hpp. Lua has values of Lua, which
-- are given, and parseDefault; Types has types, their tables and what resolveType calls, Resolve resolveType itself, and
-- Methods what is done with methods and notifications. Orderly, Ordered, Params and Spec are about what is
-- mentioned where, Again, Known and Later about a second resolution. lua_tointeger is the parameter `to_integer`.
--
-- Tests: runs, and the theorems at concrete inputs.
--
-- Not modelled: Weak pointers, where values lie in an arena, traces, the texts of exceptions
-- outside of Codegen, the characters of JSON text (RapidJSON), what an executor does with a job,
-- pointers with another separator, the output of the code generator. An allocation fails only
-- where `fits` says so. A copy of JSON within the RPC layer (SendBatch, addBatchResp,
-- Json{params}) is the value itself: the DepthError of a value of more than 300 levels is left
-- out there. The transport names a promise by a number and does not use the states of Future.
pub mod Prelude
pub mod Future
pub mod Json
pub mod Membuff
pub mod JsonText
pub mod MsgPack
pub mod Arena
pub mod Codegen
pub mod Rc
pub mod Rpc
pub mod Tests
