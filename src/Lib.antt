-- ===== src/Lib.antt =====
-- php-nsq is a PHP extension, written in C, that connects a PHP program to nsqd: it publishes
-- messages, and it subscribes to a topic with worker processes that run an event loop. This
-- library models its parts as functions and states what they promise.
--
-- - Prelude: names shared by all modules: Boolean tests, lists over the native numbers, byte
--   strings.
-- - Wire: common.c. readI16, readI32, readI64, ntoh64, check_ipaddr, as functions of a memory (a
--   function from addresses to bytes); Wire/BigEndian has their meaning.
-- - Print: what the sources use of printf: %s up to the NUL and %d.
-- - Command: command.c and the methods of message.c. One function for each nsq_ function, from
--   its arguments to the bytes written, or none where sprintf would write past the buffer of 128
--   bytes. Command/Line reads the lines back, Command/Limits says which fit.
-- - Queue: sub.c, pending_message_t and the queue of messages: enqueue_message, dequeue_message,
--   the frees, and cleanup_message_queue, on a heap from addresses to nodes and blocks, where an
--   access to an address that holds nothing is none. Queue/Chain has the invariant.
-- - Process: sub.c, process_message_queue and process_business_message: one tick of the timer.
--   The function of the user that PHP calls is a parameter.
-- - Receive: sub.c, readcb. A Reader holds the variables of the loop (l, is_first, the message
--   buffer and its room, the size), the input, the queue and what was written; read_size,
--   read_body, take_response, take_message and dispatch are the parts of one round, and readcb
--   is the loop. The libevent buffer is an interface (Input) whose laws are those of
--   bufferevent_read; the queue is an interface (MessageQueue) that Receive/Backing fills with
--   the linked queue of Queue. Receive/Step and Receive/Stream are about frames as nsqd should
--   send them, Receive/WholeFrame, Receive/ErrorFrame and Receive/LostFrame about a frame of any
--   type, of a type that readcb does not know, and of too few bytes or with a body that malloc
--   refuses, Receive/Drain about what readcb does when nothing is left, Receive/Cut about a size
--   of which a part has come.
-- - Publish: pub.c, publish and deferredPublish: the command in its buffer of 1 MB (none is a
--   write past it), and the wait for the answer, which takes the results of read one by one.
--   Publish/Line reads the commands back, Publish/Await has the reads step by step,
--   Publish/Answer the way to success, Publish/Failure the other ways, Publish/Attempts and
--   Publish/Stale are about calls one behind the other on a socket. The wait needs no fuel,
--   since each step uses one result.
-- - Worker: nsq.c, what the parent process does in Nsq::subscribe: worker_arg builds the
--   argument of a worker, start_workers forks one for each producer and connection, reload
--   starts again the worker of a process that has ended, wait_loop is the loop behind wait, over
--   what wait gives. The child's side of fork is Loop. The results of fork are a parameter. A
--   write outside arg_arr is none.
-- - Exception: nsq_exception.c and nsq_exception.h.
-- - Connection: pub.c, nsq_conf_timeout and connect_nsqd: connect_one is one round of the loop,
--   with the calls on the socket as a list of actions and send_identify of Session behind a
--   connection that is made. What socket, the resolver, connect and read give is a parameter. A
--   call returns, or the process exits, or it still waits for an answer, or there is a fault.
-- - Lookup: nsq_lookupd.c: lookup, request and FinshCallback, and the tests of Nsq::subscribe on
--   the answer. A write behind the block of the address, and a result that nobody has set, is
--   none.
-- - Subscribe: nsq.c, the method subscribe: look_up is the label lookup with the goto to it,
--   over the states that the network has round by round; subscribe goes from the configuration
--   to the workers, and Subscribe/Greeting on to what each worker says to nsqd.
-- - Nsq: nsq.c, __construct, connectNsqd, closeNsqdConnection, publish and deferredPublish, as
--   functions of the properties of the object (Object). Nsq/Parse is about the addresses,
--   Nsq/Round about connecting and closing, Nsq/Reach about whatever is called on an object. A
--   fault is none, but for connectNsqd, which ends as connect_nsqd does.
-- - Session: common.c, send_identify, and sub.c, conn_eventcb: the IDENTIFY command in its
--   block, the wait for the answer as a state machine over the results of read (Session/Wait),
--   and what is done at each event of a connection as a list of actions (Session/Event).
-- - Loop: sub.c, subscribe: step is one event, an arrival of bytes with readcb or a tick with
--   process_message_queue, run is the event loop, subscribe what is around it. Loop/Arrival says
--   what bytes may come in the phase between two frames and inside one, Loop/Abstract is the
--   abstract queue with its step relation, Loop/Ticks and Loop/Refinement relate the two,
--   Loop/Progress is about the messages that are handled, Loop/Replies about what nsqd hears,
--   Loop/Dispatch about the end, which is reached only where the kernel's polling fails, since
--   the timer is persistent, Loop/Reconnect about a connection that ends inside a frame.
--   Arrivals that end inside the size of a frame are not among the phases: Receive/Cut has what
--   readcb does with them.
-- - Life: sub.c, conn_eventcb and the subscribe that it calls: a worker across its connections,
--   as long as the kernel's polling does not fail. Each subscribe runs its event loop inside the
--   callback of the one before; pending is the stack of what these callbacks have still to do,
--   past what was written on the earlier connections. perform runs the actions of conn_eventcb,
--   happens is one callback, live a sequence of them. Life/Depth is about the stack, Life/Failed
--   about a subscribe that fails, Life/Greeting about a new connection up to the greeting,
--   Life/Reopened about the messages over several connections.
-- - Worker/Stop is about the processes that SIGTERM reaches; Worker/Tree: nsq.c, the processes
--   that a process and its children start where subscribe returns in a child, which then goes on
--   in the loops of its parent.
-- - Receive/View: the queue in memory as its users see it: a quotient of the queues on the heap
--   by the messages that Queue/Walk reads from the pointers, with enqueue_message as push and a
--   round of cleanup_message_queue as pop.
-- - Registration: nsq.c, message.c, nsq_lookupd.c, nsq_exception.c: the calls of
--   PHP_MINIT_FUNCTION as a list, with the tables of functions and arguments, and the numbers of
--   arguments that the methods parse; Registration/Module has the module entry of nsq.c and the
--   functions of the module that it names.
-- - Delivery: a message from publish to the user's function. Delivery/Stream reads what a
--   connection of a publisher carries, Delivery/Handled puts Publish and Loop together; that
--   nsqd sends each message once is a hypothesis.
--
-- The parts meet in these places: conn_eventcb calls subscribe again, and Life puts Session and
-- Loop together for it; readcb puts messages into the queue from which process_message_queue
-- takes them, and both write to the connection that conn_eventcb has greeted; Nsq::subscribe
-- asks lookup for the servers and starts a worker process for each, which runs the event loop of
-- sub.c; publish and deferredPublish write to the connections that connect_nsqd opens.
--
-- Loops that the source does not bound take a number of rounds: readcb has one for each frame
-- and one or more at the end, which the event loop gives as one for each byte that arrives (no
-- fewer than the frames) and some to spare; cleanup_message_queue has one more than the count of
-- messages; the digits of n have n + 1 rounds, more than n has digits.
--
-- The waits of publish and send_identify and the rounds of lookup run over lists of what the
-- outside gives, and where a list ends the model says that the code still waits.
--
-- Not modelled are what the Zend engine does with the registrations, its reading of parameters
-- beyond their number, the constructors and the destructor that only pass a value on, and the
-- calls of libevent and the kernel, which are parameters where their results matter.
pub mod Prelude
pub mod Wire
pub mod Print
pub mod Command
pub mod Queue
pub mod Process
pub mod Receive
pub mod Publish
pub mod Worker
pub mod Exception
pub mod Connection
pub mod Lookup
pub mod Session
pub mod Subscribe
pub mod Nsq
pub mod Loop
pub mod Life
pub mod Delivery
pub mod Registration
