-- ===== src/Lib.antt =====
-- chan_svistok, the channel driver of Asterisk for GSM modems: a model of the parts that keep its data
-- and speak its formats, with the theorems that make them correct.
--
-- The parts and how they interact:
--   Memory (memmem.c, and what the code uses of memchr, memcmp and memmove): a memory is a function from
--     addresses to bytes; `Memory.Find` says what a search finds.
--   Ring (ringbuffer.c, ringbuffer.h): the ring buffer that the bytes of a device are read into and
--     that audio goes through. `RingBuffer` has the fields of `struct ringbuffer`, positions are
--     numbers below 2^64 with the wrap of `size_t` written out, and an io vector is an index into the
--     buffer and a length. A function that fills `iov` returns its result and the vectors; those it
--     does not set keep the values they had. `contents`, the list of the bytes held, is the
--     specification: `Ring.Inv` has the representation invariant, `Ring.Read` and `Ring.Write` show
--     what each operation does to the list, `Ring.Order` what whole runs do, and
--     `Ring.Search` (rb_read_until_char_iov, rb_read_until_char_after_iov, rb_read_until_mem_iov) what
--     the searches find.
--   Mix (mixbuffer.c, mixbuffer.h): the buffer in which the voices of a conference are added, on top of
--     Ring. A stream has a name, and a store maps names to `struct mixstream`, since a stream that is
--     written to is the one that the list refers to.
--   Queue (at_queue.c, at_queue.h, and the counters of chan_dongle.h): the tasks of AT commands that
--     wait for a device. Allocations have names, and `Pvt` keeps the list of those that were freed;
--     `owned_tasks` and `balance` of `Queue.Memory` count those of the tasks and of the data of their
--     commands. What `write` answers is a list of outcomes,
--     the address that `ast_malloc` returns an argument.
--   Response (at_response.h, and the table of at_response.c): the classes of responses, the texts that
--     they begin with, and their names.
--   Read (at_read.c, and the loop over the responses in do_monitor_phone of chan_dongle.c): what a device
--     sends goes into a ring of Ring, `at_read_result_iov` cuts the next response out of it, and
--     `at_read_result_classification` gives it a class of Response and takes it off the ring. The state
--     between two calls is `*read_result`, 0 outside and 1 inside of a response. `Read.Prefix` and
--     `Read.Opening` restate the tests on the ring as tests on its contents, `Read.Line` finds the end
--     of a line, `Read.Monitor` follows the loop.
--   Parse (at_parse.c): what the text of a response says. A text is a list of bytes, a pointer an index;
--     `Parse.Marks` is about the search for delimiters, `Parse.Fields` about the fields between them,
--     `Parse.Scan` has strtol and the conversions of sscanf, `Parse.Values` the parsers of numbers,
--     `Parse.Creg` the state machine of +CREG, and `Parse.Sms` gives the PDU of a +CMGR to Pdu.
--   Command (at_command.c, at_command.h): the functions that put commands into the queue of Queue; `made`
--     keeps what was written to each new allocation, and the one of the task. `Command.Dial` has those of calls, `Command.Text`
--     SMS and USSD, which use Pdu and CharConv, `Command.Start` the set-up of a device, and
--     `Command.Memory` says where the allocations end.
--   Calls (cpvt.c, cpvt.h, and fields of struct pvt in chan_dongle.h): the list of the calls of a device,
--     its counters, and the tasks of Queue that belong to a call. The functions of chan_dongle.c that
--     are called at the first and the last call are kept as a list of calls. `Calls.State` has
--     change_channel_state of channel.c.
--   Dongle (chan_dongle.c, chan_dongle.h, and schedule_restart_event of helpers.c): `struct pvt` as the
--     handlers share it, on top of Calls and Queue: the record `Dongle` has one field for each group of
--     fields, and the functions of a component work on its part. `Dongle.Restate` has how a device is
--     stopped, started and removed, `Dongle.Dial` the tests before a call or an SMS; `Dongle.Disconnect`,
--     `Dongle.Graceful` and `Dongle.Possible` are about these. `Dongle.Inv` has the counters of the calls.
--   Handler (at_response.c, and new_channel of channel.c): `at_response` and the functions that it calls,
--     on a `Dongle`; what Asterisk, the settings and the allocations answer is the record `World`. They use
--     Parse for the text of a response, Command for the commands that they queue, Pdu and CharConv for
--     messages, and Dongle and Calls for the state. `Handler` has those that answer a command,
--     `Handler.Calling` and `Handler.Listing` those about calls, `Handler.Sms` those of messages,
--     `Handler.Card` those about the SIM card, the network and the device, `Handler.Dispatch` at_response
--     itself. `Handler.Tallied` goes through all of them for the counters of the calls, `Handler.Clcc` is
--     about +CLCC.
--   CharConv (char_conv.c, char_conv.h): texts as hexadecimal octets, packed septets and UCS-2. A text
--     is the list of its bytes without the closing NUL; iconv is a parameter.
--   Pdu (pdu.c): the fields of an SMS, `Pdu.Deliver` the parsers of a received message and of a status
--     report, `Pdu.Submit` the message that is sent, which calls CharConv for its text.
--   Base: the native naturals, Boolean tests, lists over them, and the arithmetic of `size_t` (64 bits)
--     and `unsigned` (32 bits).
--
-- Loops are recursion on the list they go through or on a count that the code bounds: the search loops
-- run at most as often as the length they are given, the loop of `rb_read_until_mem_iov` `len - i`
-- rounds, after which its own condition ends it. `write_all` is recursion on the answers of the
-- device. `at_read_result_iov` calls itself: its fuel is the number of calls, and one more than the bytes
-- in the ring is enough, since each call takes some off; the loop of do_monitor_phone has a round for
-- each response and one that finds none.
-- The loop of at_response_clcc has one round more than the bytes of the text: each goes on in a shorter one
-- (`Handler.Clcc.Rounds`).
--
-- Not modelled: log messages; the place that the parser of a PDU leaves its pointer at when it fails;
-- what a parser of numbers has stored when a later number fails; the functions that are behind `#if 0`
-- or a comment; the statistics, files and events of the manager that the handlers write beside the state;
-- the numbers of the other side of a call; the moves of descriptors between the channels of a conference
-- (channel.c) and the callbacks of Asterisk; the lock files and the loading of the module (chan_dongle.c),
-- pvt_reconfigure, which nothing calls; the selection of a device, and the separate programs for
-- flashing and discovery, which are system calls for the larger part.
pub mod Base
pub mod Memory
pub mod Ring
pub mod Mix
pub mod Queue
pub mod Response
pub mod Read
pub mod Parse
pub mod Command
pub mod Calls
pub mod Dongle
pub mod Handler
pub mod CharConv
pub mod Pdu
