-- ===== src/Lib.antt =====
-- Video alarm clock: a model of the parts of the firmware that decide when an alarm rings, which
-- paths of the card are touched, what is stored, how a film is read and buffered, and how bright the
-- screen is.
--
-- The parts, and the files of sources/components that they model. A function keeps the name that it
-- has in C without the prefix `nn20clock_<component>_` and without `_private` where there is no
-- second function of that name; a struct is a record, an enum a data type, an `esp_err_t` an EspErr.
-- - Alarm: nn20clock_alarm. Alarm/Model: the record, its defaults and `validate`. Alarm/Libc: the
--   calendar of the C library, `localtime_r` and `mktime`, which is a parameter. Alarm/Occurrence: the
--   next occurrence of one alarm and whether it occurs in a half-open interval. Alarm/Slots: the list
--   of sixteen, `list_find`, `list_put`, `list_remove`, `list_first_in`.
-- - Timer: nn20clock_timer. Timer/State: the Timer and its events. Timer/Scan: `scan_alarms`, with
--   the grace of 60 seconds and the snooze. Timer/Poll: `poll_private`, the whole tick. Timer/Control:
--   the other requests of its worker. A poll asks Alarm/Slots for the earliest occurrence since its
--   last reading. A function of state answers the new state and the calls of callbacks in order.
-- - Media: the names and paths of nn20clock_media. Media/Names: kinds, housekeeping files, safe
--   names. Media/Paths: checks, joins and parents. Media/Resolve: the paths of FTP clients.
--   Media/Listing: the entries of one folder, their sort and counts. Media/Openers: the clips that
--   are played first, in the order of the numbers that their names lead with.
--   Alarm/Model asks Media/Paths whether the media of an alarm are safe.
-- - Ringbuf: nn20clock_ringbuf, the window of a file that the player reads ahead of the decoder.
-- - ReqPool: nn20clock_reqpool, slots that are claimed from several threads; ReqPool/Threads takes
--   each atomic exchange as a step of one thread.
-- - Brightness: nn20clock_brightness. OtaVersion: nn20clock_ota/src/nn20clock_ota_version.c.
-- - Avi: nn20clock_avi, the container of a film, over a reader that is a parameter. Avi/Headers: the
--   walk over the chunks. Avi/Parse: a whole file. Avi/Index: the index, and seeking by it.
--   Avi/Frames: the frames, one call after the other.
-- - Storage: nn20clock_storage. Storage: the records, the load from flash, and `nvs_store`, whose
--   calls of NVS are listed with their keys, data, sizes and answers. Storage/Requests: what its
--   worker runs, the edits of the list through Alarm/Slots. What NVS answers is a parameter;
--   Storage/Durable has what NVS documents of it, for a start that reads what was written.
-- - Manager: nn20clock_manager. Manager/States: the table of states and the screen that follows.
--   Manager/Ringing: the deadline, the snooze and the end of an alarm, by calls of the Timer and the
--   Storage. Manager/Requests: commands of screens and events of the Timer. Manager/Control: start,
--   stop, and the way of a request into the queue. Manager/Services: what the settings screens call,
--   with `load_alarms` of nn20clock_app, the source of the Timer's schedule.
-- - Ftp: nn20clock_ftp. Ftp/Commands: `handle_command`, one line of a client, with the paths of
--   Media/Resolve; the owner of the card is a parameter. Ftp/Sessions: `session_task`, with what
--   `recv` answers as a list of reads.
-- Prelude has the shared lists, tests, integers and strings, Platform the error codes. Examples has
-- concrete runs.
--
-- Numbers: a `uint8_t`, `uint16_t` or `uint32_t` that is computed with is wrapped where C wraps it;
-- `time_t` is the integers, whose 64 bits are not exhausted; `size_t` lengths stay below the sizes of
-- their arrays. Loops are recursion on the list gone through, which for an FTP session is the list of
-- its reads; those over a count of rounds (the eight days of `next_occurrence`, the seventeen
-- candidates of `next_free_id`, the ten digits of a uint32_t) recurse on the rounds left, which are
-- all that the code has, so no fuel can run out. The loops of Avi over a file run on fuel and answer
-- `out_of_fuel` where it does not reach: one chunk takes eight bytes at least, so as many rounds as
-- there are bytes are enough, which the results state.
--
-- Outside the model: the C library's calendar (a parameter), the worker of sources/components, whose
-- answer to a post is a parameter, allocation (a Boolean where the code tests it), logging, and
-- callbacks that call back into the Timer. A subscriber's callback is not exchanged while it is
-- subscribed. The Timer does not tick within a request of the manager, whose pointers to the others
-- and to payloads are not NULL where the code always sets them. What flash holds after NVS has
-- refused a write is the matter of NVS. Not modelled: the saves of nn20clock_storage that do not wait
-- and its erasing of superseded keys, the device and media hooks of the manager, the sockets and
-- transfers of nn20clock_ftp, and all other components: screens, drivers, network and player, which
-- are calls of ESP-IDF and of LVGL for the greater part.
pub mod Prelude
pub mod Platform
pub mod Brightness
pub mod OtaVersion
pub mod Ringbuf
pub mod ReqPool
pub mod Media
pub mod Alarm
pub mod Timer
pub mod Avi
pub mod Storage
pub mod Manager
pub mod Ftp
pub mod Examples
