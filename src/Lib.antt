-- ===== src/Lib.antt =====
-- The chat program of this repository: clients that send text messages to one another through a
-- row of five servers, Alpha to Echo, over UDP.
--
-- The parts and how they interact. A client (src/Client) talks to one server by datagrams. A
-- server (src/Server) keeps the messages for its own clients until they ask for them by a get and
-- acknowledge them, passes a message for the client of another server on to its left or right
-- neighbour, and holds back a message for a client that it knows nothing of. The servers learn of
-- one another's clients by sync messages, which each sends to its two neighbours. Both programs
-- share the message class, its form on the wire and the tables of servers (src/Common).
--
-- The files, and what they model:
--   Common, Text: numbers, lists, outcomes of code; what `std::string`, `std::to_string`,
--     `std::stoi` and `std::stringstream` do where the program calls them
--   Constants: src/Common/constants.h
--   Message: src/Common/dataMessage.h and dataMessage.cpp
--   Connection: src/Common/remoteConnection.h and remoteConnection.cpp, and datagrams
--   Server: src/Server/server.h and server.cpp. State has the members, the constructor and the
--     functions that change one member; Mailbox has sendMessagesToClient and
--     removeReceivedMessageFromList; Routing has processClientSendMessage,
--     processServerRelayMessage and a round of attemptForward; Sync has a round of
--     sendSyncPayloads; Listen has a round of listenLoopUDP and the rounds of all threads as steps;
--     Threads has run(), the threads with their loop tests, as schedules of rounds
--   Client: src/Client/client.h and client.cpp, a round of each loop; Threads has run()
--   Main: src/Server/serverMain.cpp and src/Client/clientMain.cpp, the prompts and the construction;
--     Prompt is about the first loop; Program and ClientProgram add run() and the
--     catch
--   Network: the listening loops of five servers and the datagrams on their way between them, as
--     a step relation. Row, Delivery, Alone and Termination are about a message on its way over
--     the row; Lists, Spread, Chain, EndToEnd about the receipts of the datagrams of sync rounds,
--     from one server to the next; Session and Conversation about clients, from one user's
--     command line to another user's screen; Bounce about neighbours that both send a message
--     back. Steps has every event of the network, losses and repetitions included, and Everywhere
--     what holds after any of them; Work has the events that the servers cause themselves,
--     Announced the rounds of syncs from a client's server to both ends of the row, and
--     Introduced, FirstMessage and FirstConversation the states that come after the constructors
--   Tests: runs at fixed inputs
-- A function keeps its name of the source, in snake case. The modules below one of these hold the
-- proofs about it.
--
-- How the model stands to the code. A `std::string` or a vector of `char` is the list of its bytes.
-- An object is a record, and a member function returns the new record with the datagrams that it
-- sends. Code returns, throws, fails an assertion or does what C++ leaves undefined (`Outcome`);
-- assertions are taken as enabled, as in a debug build. An `int8_t` that comes off the wire and the
-- `int64_t` sequence numbers are integers with the conversions and the wrap-around written out; a
-- server's own index is a natural number, since both programs pass one of 0 to 4 only. Reads of the
-- array of client lists are at indices of the row, and its one write at an index off the wire
-- checks the bound. Loops over lists and counters are structural recursion; printing a number
-- recurs on fuel, one more than the number, which is enough since each round divides it by ten. The
-- prompt loop is given one round more than the input has characters, which is enough since each
-- round takes a character or finds the input at its end. The loops of the threads have no end of their own: a run is any finite
-- schedule, a list of rounds of the threads in the order in which they are done, each with its loop
-- test.
--
-- What is a parameter. Boost's endpoints and times are types `E` and `T`, its resolver is a
-- function from a host name and a port to an outcome, whether a socket can be bound to a port is a
-- function `port_is_free` of the port, and the clock's value is an argument. A result about servers
-- that were constructed speaks of constructors that returned, or says that the port is free. A call
-- of `receive_from` is an event: a datagram and its sender, or an error. Where a result needs the
-- resolver to succeed, it says so.
--
-- What is not modelled. A round of a thread is one step: the members are shared without a lock, and
-- data races are outside the model. Sending does not fail, nor does the client's opening of its
-- socket, which is bound to no port. The network may lose, repeat and reorder datagrams: a result
-- on one message's way over the row, or on the datagrams of one sync round, speaks of a run in
-- which they arrive, those of the round in their order, and of a schedule of syncs in which each
-- server's neighbours receive what it sent. The logs, the texts of the prompts, the sleeps, the
-- destructor, which closes the socket, and the key that the client program waits for at its end are
-- left out.
pub mod Common
pub mod Text
pub mod Constants
pub mod Message
pub mod Connection
pub mod Server
pub mod Client
pub mod Main
pub mod Network
pub mod Tests
