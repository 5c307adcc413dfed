-- ===== src/Lib.antt =====
-- Verification of the core of the game server in src/.
--
-- The program is a server for an online game. A connection takes packets from a socket, checks and
-- deciphers them and hands them to a protocol as a message; the protocol calls the game in jobs that
-- the dispatcher runs one by one, some of them put off by the scheduler; the game changes the world
-- and sends messages back. Logins pass a limit on connections and a waiting list. Maps, items and
-- the saved state of things are binary files of nested nodes.
--
-- Parts and files. A file of this library and the code it is about:
-- - Position (src/position.h, src/position.cpp, src/tools.cpp): `Position` with its order, offsets
--   and ranges, and directions. Coordinates are 16, 16 and 8 bits; a difference is an integer.
-- - Bytes: memory as a function from offsets to bytes, little-endian numbers, regions that a write
--   leaves. It stands for memcpy and the casts of pointers.
-- - Net.Message (src/networkmessage.h, src/networkmessage.cpp): `NetworkMessage`, a buffer with a
--   length, a position and a flag for an overrun; a function per read and write.
-- - Net.Xtea (src/protocol.cpp): the cipher, rounds of a block and the loops over a buffer.
-- - Net.Checksum (src/tools.cpp): `adlerChecksum`, with its chunks.
-- - Net.Packet (src/outputmessage.h, src/protocol.cpp, src/connection.cpp): headers of an output
--   message, what is sent, and what the receiver makes of it from the length on.
-- - Otb.PropStream (src/fileloader.h): streams of properties to read and to write.
-- - Otb.Loader (src/fileloader.cpp, src/fileloader.h): the parser of node files. Iterators are
--   offsets, an exception is `none`, and the pointers on the stack are frames that enter their
--   parents when they end.
-- - Names (src/wildcardtree.cpp, the calls in src/game.cpp): the tree of the names online. The
--   children of a node are an association list; a walk of pointers is a recursion.
-- - Ban (src/ban.cpp): the limit on connections of an address.
-- - Waitlist (src/waitlist.cpp): the waiting list for a full server. The clock, the limit, the
--   number of players online and the player are arguments; undefined behaviour is `none`.
-- - Levels (src/player.cpp, src/player.h): experience and levels. What the scripts and the vocation
--   give is an argument.
-- - Scheduler (src/scheduler.cpp, src/tasks.cpp): the scheduler and the dispatcher. A critical
--   section of a thread is a step, and the order in which the threads get the lock is a list of steps.
-- - Party (src/party.cpp, the callers in src/game.cpp and src/player.cpp): `Methods` has the methods
--   of `Party`, `Handlers` the functions of `Game` and `Player` that call them, `Session` any
--   sequence of them. A pointer is a number, a world has all players and all allocated parties, and
--   a handler gives `none` where it would follow a pointer to a deleted party.
-- - Paths (src/map.cpp, src/creature.cpp): the path search of `Map::getPathMatching`, with its nodes and
--   the condition of `FrozenPathingConditionCall`. `Tree`, `Growth`, `Expansion`, `Places` and `Walks` are
--   about where the nodes are and how they are linked, `Frontier` and `Rounds` about their costs.
-- - Tiles (src/map.cpp, src/map.h): `Map::getTile` and `Map::setTile` on the quad tree of `QTreeNode`.
--   `Growth` is about `createLeaf`, `Squares` about the bits of coordinates, `Setting` and `Placing` about
--   what a call of `setTile` does to the leaves, `Lookup` and `History` about one call and all of them.
--   What a tile holds is not modelled: what two tiles at one position are made into is an argument.
-- - Containers (src/container.cpp, src/item.h): items in containers in an outermost one, as a tree; a container is
--   named by its path. `Calls` has the operations one after another, `Iteration` the iterator, `Queries` what is asked
--   before. `Weights`, `Upkeep` and `Totals` are about weights, `Visits` and `Counting` about the loops over all things,
--   `Tops` and `Limits` about queryAdd.
-- - Attributes (src/item.h, src/item.cpp): the attributes of an item as a map (`Store`), how an item is written, but
--   for custom attributes, and how it is read (`Reading`, `Loop`, `Effects`, `Saved`, `Restored`, `Rounds`). An integer
--   is its 32 bits; the game's answer to a unique id is an argument.
-- - Chat (src/chat.cpp, the handlers of src/game.cpp): channels, their users and invites. A player is its guid, and a
--   map of channels is an association list. `Lobby` has the handlers and who is online; `Channels` is about one
--   channel, `Kept` about a map of them, `Admission` about getChannel, `Sound` and `Events` about the operations and
--   any row of events, `Departed` about players that have logged out.
-- - Base: shared names, tests on numbers, lists and integers. Tests: known answers, and a concrete
--   instance of each theorem that has hypotheses.
--
-- Numbers. A machine number is a natural number with its wrap written out (`% 2 ^ w`); a signed one
-- is an integer or its bits, as the file says. Memory is unbounded where the code's bounds are proved
-- to be kept, and list lengths are below 2 ^ 64. The clock stays below 2 ^ 63 milliseconds.
--
-- Loops. Loops over lists and bytes are structural. The climb over levels runs on fuel of one more
-- than the experience, which is enough because the experience that a level wants grows with every
-- turn and stays below the player's; the fall runs on the level. The loop of `findOne` follows the
-- only child, which is structural. The path search runs on fuel of one more than the nodes that there
-- is room for, which is enough because each round closes a node for good; the loop along the parents
-- runs on the cost of the node, which falls with every step. `createLeaf` runs on
-- its level, which starts at 15, and leaves are made at level 3. `unserializeAttr` runs on rounds, of which more than
-- the stream has bytes are enough, and the iterator of containers on one round for each thing. The rounds of the cipher are counted from 32.
--
-- Left out. Sockets, threads, waits and signals, and locks beyond the order of the steps: what the
-- parts do between them is what is modelled. Floating point values of messages. RSA, the Lua
-- interpreter, the database client, XML, boost and the standard library are code of others. The
-- world itself (creatures, combat, conditions, spells, what tiles hold, the rest of the map, houses, raids, spawns,
-- guilds, the market, the store), the protocols' parsing of commands, loading and saving
-- through the database and the Lua bindings are not modelled.
pub mod Base
pub mod Bytes
pub mod Position
pub mod Net
mod Tests
pub mod Otb
pub mod Names
pub mod Ban
pub mod Scheduler
pub mod Levels
pub mod Waitlist
pub mod Attributes
pub mod Chat
pub mod Containers
pub mod Tiles
pub mod Party
pub mod Paths
