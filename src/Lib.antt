-- ===== src/Lib.antt =====
-- A model of the logic of apollolib, a game-server library in C++.
--
-- Status (attribute/stat_machine.h, attribute/stat_machine.cpp, attribute/stat_data.cpp): the
-- status machine of a role. Status.Tables has the static tables and the searches in them,
-- Status.Loader the readers that fill them from rows of the data base, Status.Machine the
-- fields of a machine and the private methods that enter and leave states, Status.Calls the
-- public methods that change and read states, Status.Forbids those that ask whether an operation
-- is forbidden. The other modules of Status hold proofs: Loop, Weight, Counting, Steps,
-- Invariant, BitInvariant and Reach for the forbid counters, Entries, Rows and Loaded for the
-- loader, Answers and Reasons for the questions, Digit and Count for the reference counts, Tests for runs.
--
-- Attr (attribute/roleattr_help.h, attribute/roleattr_help.cpp, attribute/attr_mgr.h,
-- attribute/attr_mgr.cpp): the attributes of a role. Attr.Desc has the rows that describe the
-- attributes and the questions on them, Attr.RunSort the order in which their formulas run,
-- Attr.Asset the values of a role with their limits and the recalculation, Attr.Calls the public
-- methods. Passes, Order, Complete, Limits, Recalc and Refused hold proofs, Tests runs.
--
-- Sampling (srv_common/ndrand.h, srv_common/ndrand.cpp): random choices. Sampling.Draws has the
-- functions, on values of rand() as arguments; Weights, Pick, Marks, Special and Quota hold proofs,
-- Tests runs.
--
-- RankMap (include/rankMap.h): the list of the best values. RankMap has its operation, Take and
-- TopRanks the proofs, Tests runs.
--
-- Alarms (srv_common/dailyUpdateMgr.hpp, srv_common/dailyUpdateMgr.cpp): alarms once a day, a week
-- and a month. Alarms.Events has the base class and the loop that the managers share,
-- Alarms.Managers the rules of the three managers, Alarms.Packing the word of 64 bits in which
-- `toStream` keeps an id and a time; LastTimes, Repeated and Twice hold proofs,
-- Tests runs.
--
-- UserData (srv_common/userAddtionData.h, srv_common/userAddtionData.cpp): the named data of a
-- user. UserData.Nodes has the map and the calls that read and change it, UserData.Names the text
-- of a name with its type, UserData.Stream the stream of a map in both directions; History,
-- Journal, RoundTrip and Refusals hold proofs, Tests runs.
--
-- GameTables (game_parser/dbl_mgr.h, game_parser/dbl_mgr.cpp): the tables of game data.
-- GameTables.Table has the tables and the searches in them, Cursor the cursor, TextFile and
-- TextBase the loaders of text files, Files the binary form of a table, Database the data base with its binary
-- file, its comparison and its self-test; Walk, Sound, Reload and SelfTest hold proofs, Tests runs.
--
-- LoginToken (include/loginToken.h): the token of a login and the key of a transferred session as
-- bytes; RoundTrip holds proofs, Tests runs.
--
-- Players (srv_common/playerMgr.h, srv_common/playerMgr.cpp, srv_common/gameRole.cpp,
-- srv_common/srv_msghandler.cpp): the players that are online and the ways of a message to them;
-- Routing holds proofs, Tests runs.
--
-- MessageData (game_parser/dbldata2netstream.cpp): game data in network messages. MessageData has the
-- writer and the reader that a format drives; Written and RoundTrip hold proofs, Tests runs.
--
-- ClientLogin (cli_common/login_apollo.cpp): the login of a client. ClientLogin.Session has the session
-- that is kept for the next login, as a stream and as a file, around the bytes of LoginToken, and
-- Hosts the lists of servers (with include/apollo_data.h); Stored, Accepted, Saved and HostList hold
-- proofs, Tests and HostTests runs.
--
-- Base: the notation and lemmas that the parts share. A text is the list of its bytes, an array
-- a function of its index, and the index -1 is `none`.
--
-- Bounds. Forbid counters and field values are 32-bit words and reference counts are bytes, with
-- their wrap-around written out. The arrays of the program hold 64 states, 32 forbid entries and 8
-- fields and its loader does not check that the rows fit; the model's lists are as long as the
-- rows ask for, and a theorem that needs the capacities names them. A loop over the set digits
-- of a word v has v rounds of fuel, since each round clears a digit. The passes of parse_run_sort
-- are counted by the code itself. The loop of
-- FromStream has one round of fuel more than the stream has bytes, and each round reads at least two.
-- The cells of a line are split with a round of fuel for each byte of it. The loader starts from
-- tables that are zero, as static storage is before the first load.
-- The sum of weights in Sampling is a signed 32-bit word and the buffer of marks has 256 places; a
-- write outside of it gives `none`. The columns of a record are counted by a byte (`m_col`), and a
-- failed assertion on an index gives the node `bad_index`. The number of a session is a 16-bit word.
--
-- Of libraries and so parameters: the value type NDVarType (a record of its operations), the
-- machine that runs formulas (a function of what it reads), ndstr_str_end,
-- ndstricmp, the functions of the calendar, the class NDAffair (the list of its calls), and the
-- streams of numbers and of the value type LogicDataObj (UserData.Stream.ValueLib), the bytes of
-- numbers and cells in a file (GameTables.Files.FileLib), the messages of the network
-- (MessageData.MsgLib), the ciphers (ClientLogin.Session.CryptLib), and the functions on the texts of cells
-- (GameTables.TextFile.TextLib). Parameters too are the product of floating-point numbers in
-- ndrand_range (`portion`, with the law Sampling.Weights.IsPortion), the outcome of the read before the
-- first clock time of a row without any (`bad_read`), the answers of the virtual
-- getLastError and getLastErrorID (`reports`), and the numbers of the wrapping messages of Players.
--
-- Not modelled: the text dumps GetStatDesc and GetForbidDesc, the change of the character code
-- around ndstr_str_end, the calls of attributes by name, the reader of the attribute table, the release of memory, the texts that
-- OutputLua and TestOutput write, and the tables that a failed LoadBinStream leaves behind.
pub mod Base
pub mod Alarms
pub mod Attr
pub mod ClientLogin
pub mod GameTables
pub mod LoginToken
pub mod MessageData
pub mod Players
pub mod RankMap
pub mod Sampling
pub mod Status
pub mod UserData
