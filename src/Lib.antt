-- ===== src/Lib.antt =====
-- A model of the bitmq message broker: a server with exchanges, queues and bindings in the manner of
-- AMQP, whose durable objects stand in an SQLite database and whose durable messages stand in one
-- file for each queue.
--
-- How the parts interact. A connection has channels, and a request names one of them
-- (mqserver/mq_broker.hpp, mqserver/mq_connection.hpp). The channel's handler
-- (mqserver/mq_channel.hpp) calls the virtual host (mqserver/mq_host.hpp), which has a manager each
-- for exchanges, queues, bindings and messages, and it answers once. A publication goes through the
-- router (mqserver/mq_route.hpp) to the queues of the exchange, and leaves one task for each of them to
-- the thread pool; a task takes a message off its queue and sends it to the consumer whose turn it
-- is (mqserver/mq_consumer.hpp).
--
-- Which file models which part:
--   Base             Boolean tests, keys, lists over native numbers
--   Dict             std::unordered_map, as an association list
--   Str              StrHelper::split of mqcommon/mq_helper.hpp
--   Router           mqserver/mq_route.hpp: isLegalRoutingKey, isLegalBindingkey, route
--   Args             the arguments of a queue or an exchange: setArgs, getArgs, encodeArgToken,
--                    decodeArgToken of mqserver/mq_queue.hpp and mqserver/mq_exchange.hpp
--   Sql              SqliteHelper::exec, escapeSqlLiteral, parseInt
--   File             FileHelper of mqcommon/mq_helper.hpp
--   Uuid             UUIDHelper::uuid of mqcommon/mq_helper.hpp
--   ThreadPool       mqcommon/mq_threadpool.hpp; ThreadPool.Steps has its threads as a step relation
--   Message          mqcommon/mq_msg.proto
--   MessageFile      MessageMapper of mqserver/mq_message.hpp
--   QueueMessage     QueueMessage of mqserver/mq_message.hpp
--   MessageManager   MessageManager of mqserver/mq_message.hpp
--   Queue            mqserver/mq_queue.hpp
--   Exchange         mqserver/mq_exchange.hpp
--   Binding          mqserver/mq_binding.hpp
--   Host             mqserver/mq_host.hpp
--   Consumer         mqserver/mq_consumer.hpp
--   Proto            mqcommon/mq_proto.proto
--   Channel          Channel of mqserver/mq_channel.hpp
--   Broker           ChannelManager, mqserver/mq_connection.hpp, mqserver/mq_broker.hpp
--   Client           the state of mqclient/mq_connection.hpp and its channels, mqclient/mq_consumer.hpp,
--                    and what a channel does with the messages that arrive; Client.Operations has
--                    Channel of mqclient/mq_channel.hpp, Client.Connection its ChannelManager and
--                    Connection of mqclient/mq_connection.hpp
--   Tests            the theorems at concrete inputs
-- The children of a module hold what is proved about it. A definition has the name of its function in
-- small letters with underscores: declareQueue is declare_queue, MsgQueueManager::exists is
-- Queue.exists.
--
-- How the code is read. A text is the list of its bytes. A class is a record, and an operation takes
-- the state and gives it back. An assertion that fails and a call of abort are `none`. The three
-- containers of QueueMessage share their messages by pointers, so its messages stand in a heap, and
-- the containers hold addresses. A size_t wraps at 2 ^ 64 and a uint32 at 2 ^ 32 where the code counts
-- or stores. The database engine is a parameter, a function from a statement and a database to a
-- code, rows and a database (Queue.Table says what it promises for the table of the queues); so is the wire format of protobuf, a pair of functions, and the text of
-- the next identifier. The file system is a list of paths with contents, and its permissions are two
-- tests on paths. A map is walked in the order of insertion, where the standard leaves it open.
--
-- A write to a file that may be read and written succeeds as a whole; a full disk is not modelled. A length
-- field of a file that is past its end ends the loading with false, where the code first asks for that much
-- memory and may throw. The server's channels and connections are values, so a callback or a task that
-- outlives its channel still has what it needs, where the code holds the channel's address.
--
-- Fuel. MessageFile.load_loop runs on the size of the file and one more, and each round moves on by
-- eight bytes at least; Str.split runs on the length of the text and one more, and each round moves on
-- by one byte at least. The theorems on loading and on splitting state the whole result, so this fuel
-- is enough. All other loops are on the structure of their lists.
--
-- Threads. ThreadPool.Steps lets the threads of the pool and its callers take their steps in any order;
-- a step is what one of them does under the lock, or one notification. A sleeper may wake by itself.
-- The channels use the pool as the queue of its tasks, and a task of theirs runs as one step.
--
-- A call of the client that waits is a value: the rid it waits for, and what it does with the response. The
-- channel objects stand in a heap, and Client.Others says what else may happen meanwhile. The callbacks of
-- the user are recorded, not run.
--
-- QueueMessage.Runs has the calls of one queue as a list, with the list of the durable payloads that were
-- put in and not acknowledged beside it.
--
-- What is not modelled: the locks of the managers, since each operation of a manager holds its lock
-- throughout; the future that threadpool::push returns; the network; the logging; the opening of the database; FileHelper::removeDirectory, which only the tests use; the
-- two older copies in mqclient whose names begin with a blank; and what is generated or belongs to others in mqcommon/*.pb.* and demo.
pub mod Base
pub mod Dict
pub mod Str
pub mod Router
pub mod Args
pub mod Sql
pub mod File
pub mod Message
pub mod MessageFile
pub mod QueueMessage
pub mod MessageManager
pub mod Queue
pub mod Exchange
pub mod Binding
pub mod Host
pub mod Consumer
pub mod Uuid
pub mod ThreadPool
pub mod Proto
pub mod Channel
pub mod Broker
pub mod Client
pub mod Tests
