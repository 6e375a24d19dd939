-- ===== src/Lib.antt =====
-- EltexSchool: the exercises and the two final tasks of a C course, as functions and theorems.
--
-- The programs do not share code; each has a module here, named for what it does.
--
-- - Base (Base/Tests, Base/Lists, Base/Int): Boolean tests on numbers, lists indexed by the native
--   numbers, integers.
-- - Text: the functions of the C library that the programs call on texts (`scanf`, `sscanf`, `atoi`,
--   `fgets`, `strtok`, `strcmp`, `printf` of numbers), over lists of bytes; Text/Decimal and
--   Text/Scan have the laws the programs rely on.
-- - Phonebook: lab4/task.c (lab5/task.c is the same text). `Book` holds the globals `phonebook` and
--   `abonent_count`; the functions keep their names, `choose` is the `switch` and `menu` the loop of
--   `main`. What the user types is one text that the calls of `scanf` consume from the left; what is
--   printed is a list of `Output`. Phonebook/Invariant, Add, Delete, Search and Menu hold the proofs.
-- - LinkedBook: lab6/task.c, the same book as a doubly linked list. `Book` holds `head`, `tail`,
--   `abonent_count` and the heap, a map from addresses to nodes; `link` and `unlink` are the changes
--   of the links. LinkedBook/Menu has searching, printing, freeing, the `switch` and the loop of
--   `main`. LinkedBook/Chain says when nodes are linked in order and LinkedBook/Segment takes such
--   lists apart; Link, Delete, Print and Free hold the proofs on adding, deleting, printing and
--   freeing. LinkedBook/Spec is what each choice promises on the plain list of entries, with
--   Spec/Refines and Spec/Choose for the proofs.
-- - Echo: finalTask1/server.c and finalTask1/client.c. Echo/Checksum and Echo/Packet are the bytes of
--   the headers and the checksums, the same in both programs. Echo/Clients is the client table of the
--   server, Echo/Server one round of its loop, `handle`. Echo/Client is what the client sends for a
--   line and which datagram it takes for the reply. Datagrams are all that the two share.
-- - Taxi: finalTask2/taxi.c. Taxi/Driver is `driver_loop`, a step function on the events that `select`
--   and `read_line` bring. Taxi/Table is the array of drivers, Taxi/Status the reading of a status
--   line, Taxi/Wait `wait_for_response` and the reading of idle drivers, Taxi/Dispatcher the commands,
--   one round of `main` and its loop. Dispatcher and drivers talk by lines of text through pipes.
-- - Chat: lab14/chat_client.c and lab14/chat_server.c. `ChatShared` is the shared memory; `act` is
--   what a client does while it holds the mutex (`register`, `say`, `leave`), and `run` a sequence of
--   such actions of any clients, so every interleaving is one. Chat/Ring and Chat/Log hold the proofs
--   on the messages, Chat/Members those on the slots of clients. Chat/Receive is
--   `receive_messages`, which finds the memory as the others left it each time it takes the mutex;
--   Chat/Input is the line editor of `send_messages`, Chat/Screen `add_message` and
--   `update_user_list`, Chat/Users what the latter shows of the slots.
-- - Stalls: lab11/task.c. The three buyers and the loader take turns in any order; a turn goes up to
--   the next call on a mutex (`buyer_at`, `loader_at`), so `run` has every interleaving. What a buyer
--   does in a stall is one turn, as it holds the mutex. Stalls/Invariant, Supply, Served and
--   Exclusion hold the proofs, Stalls/Sums what they use on sums.
-- - QueueChat: lab13/chat_server.c. `Server` holds the globals `clients` and `next_id`; `handle` is a
--   round of `handle_clients`, with `register_at`, `message_from` and `quit_at` for its three kinds of
--   request. QueueChat/Roster holds the invariant of the clients, QueueChat/Delivery who gets what.
--   QueueChat/ClientSide is lab13/chat_client.c: `receive` takes one message of the server,
--   `send_round` one line of the user (with the line editor of Chat/Input, whose keys are the same),
--   `cleanup` leaves. ClientSide/Fields says how the server reads what the client sends, and Register,
--   Talk and Users follow a registration, a line and the list of users from one side to the other.
-- - Shell: lab12/task3.c. `parse_pipeline` and `parse_args` read a line, `launch` is the loop of
--   `execute_pipeline`: a child is its arguments, its two standard streams and the other descriptors
--   that it holds. Shell/Parse and Shell/RoundTrip hold the proofs on reading, Shell/Wiring those on
--   pipes, Shell/Loop the end of `main`.
-- - Bits: lab1/task1.c and lab1/task3.c, the digits printed and the ones counted, with the rounds of
--   both loops by recursion; Bits/Printed is about reading the digits back.
-- - SimpleShell: lab10/task3.c, the shell without pipelines. SimpleShell/Trim is about the spaces
--   around a line, SimpleShell/Same compares it with Shell.
-- - TimeQueue: lab16/task2/time_server_queue.c. `main` and the workers take turns in any order; a turn
--   goes up to the next call that can wait. TimeQueue/Fifo is about the ring,
--   TimeQueue/Answers about the requests that the workers have. A descriptor is the 32 bits of an
--   `int`, here and in TimePool, so what `accept` returns on an error is one of them.
-- - TimePool: lab16/task2/time_server_thread_pool.c, by turns too. A worker that serves holds its
--   mutex, at which the main thread waits. TimePool/Connections is about what becomes of connections,
--   TimePool/Blocked about the main thread at a worker that serves.
-- - RawClient: the clients of lab16/task4, which build their headers byte by byte as Echo/Packet has
--   them, and their filters on what they receive. RawClient/Same compares packets and checksums with
--   those of finalTask1, RawClient/Modify is lab16/task4/udp_modify_server.c, RawClient/Response
--   follows a text to that server and back.
-- - FileManager: lab9/task2.c. A `Panel` has a path, its entries and the cursor; `press` is a round of
--   `main` with the file system as it is at that key. FileManager/Panels holds the invariant,
--   FileManager/Paths the way into a directory and back, FileManager/Unreadable directories that
--   cannot be read.
-- - Substring: lab3/task4.c. `advance` is the inner loop of `find_substring`, `find_from` the outer
--   one; Substring/First says what the first occurrence is.
--
-- Calls of the system (sockets, `select`, `fork`, `pipe`, `readdir`, `time`, `rand`) are arguments:
-- what they return is given to each function, and theorems hold for all of it. Machine integers keep
-- their wrap-around where the code computes with it (checksums, 16-bit lengths); counters and times
-- are taken not to overflow, and numbers that are read to fit their type. Bytes are numbers below 256.
--
-- Loops over arrays are structural. `menu` takes fuel, one unit for each round; its result is `none`
-- where the fuel runs out, and the theorems on it hold for every amount. The loops of
-- LinkedBook take fuel too, and one unit for each entry is enough. The loop of the shell takes fuel
-- above the length of its input, as each round reads at least one byte. `fold_carries` takes 3
-- units, which is enough for every 32-bit sum. `digits_loop` takes one more unit than the number,
-- which is enough as each round divides by ten.
--
-- Not modelled: lab1/task2.c and lab1/task4.c, the programs of lab2, lab7, lab8 and lab15; of lab3
-- those but task4.c; lab9/task1.c, lab10/task1.c, lab10/task2.c, lab12/task1.c, lab12/task2_client.c
-- and lab12/task2_server.c; of lab16 the samples of task1 and task3 and the time servers of task2 but
-- the one with a queue and the one with a pool; the small samples of lab13 and lab14, and
-- lab5/program.c; signal handlers but for the messages that they send; borders and colours of
-- windows; the texts of the prompts.
pub mod Bits
pub mod Base
pub mod Text
pub mod Phonebook
pub mod Echo
pub mod Taxi
pub mod Chat
pub mod Stalls
pub mod QueueChat
pub mod LinkedBook
pub mod Shell
pub mod TimeQueue
pub mod RawClient
pub mod FileManager
pub mod Substring
pub mod TimePool
pub mod SimpleShell
