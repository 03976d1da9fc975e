-- ===== src/Lib.antt =====
-- Frame Processor: streams of video are read and decoded, cropped and scaled by workers, packed into
-- batches and sent to Redis.
--
-- The parts and their files (paths from the repository's root):
--   Fifo       src/utils/fifo.h, the queue between the threads
--   Types      src/utils/types.h and types.cpp, configuration, frames and their comparison, and Deleters
--   Config     src/components/config_manager: Environment (the constructor), Transfer
--              (fetch_config_from_api), Scaling (owns_stream, is_stream_whitelisted), Parse
--              (parse_config_json), Merge (update_local_config_from_api), Reload (load_initial_config,
--              start_reloader, reloader_loop); Json states what is used of simdjson
--   StreamIo   src/components/stream_io/stream_io_manager.cpp: Manager (the set of
--              reader threads), Connect (the opening of a stream), Graph
--              (setup_multi_output_filter_graph), Reading (the loops over packets, frames and sinks),
--              Thread (run_stream); Media states what is used of FFmpeg's decoders and graphs
--   Worker     src/components/worker: Filter (create_processing_filter), Context (the cached graphs),
--              Loop (worker_loop, stop); Filter also states what is used of FFmpeg's filters
--   Publisher  src/components/publisher/publisher.cpp: Serialize and Batching (batching_loop), Sender
--              (publisher_loop), Convert (convert_frame_to_i420, copy_plane_remove_stride);
--              Connection is src/utils/redis_client.h
--   Supervisor src/core/main.cpp, the parent process and its watch over the child
--   Saver      src/utils/frame_saver.h and frame_saver.cpp: Settings (the constructor), Encode
--              (encode_and_save_jpeg), Save (save_frame)
--   Child      src/core/main.cpp, app_logic: Logging (src/utils/logger), Workers and Publishing (the
--              constructors of Worker and Publisher), Process (start, callback, shutdown)
--   Pipeline   a worker and the batcher on the queue that src/core/main.cpp gives both
--   System     all threads that src/core/main.cpp joins in lines 107 to 126: Worker and Threads (the
--              state and its steps), and for its invariants Weight, Packing, Working, Invariant,
--              Posting, Upstream, Growth and Balance, then Pictures, Intake and Overtaking;
--              Reaching, Emptying, Flushing, Shipping, Draining and Progress are about what can
--              still happen; Calm, Ordered and Sequence about one worker and one publisher thread
--   Base       the shared vocabulary: lists, machine integers, byte strings, ordered maps
--
-- The configuration manager notifies the stream manager of the wanted streams; its reader threads
-- push decoded frames on a queue; workers take them and push processed frames on a second queue; the
-- batcher takes these and pushes batches on a third, from which publisher threads send them.
--
-- Threads are sequences of events: a call of a queue holds its mutex, so it is one step, and a round
-- of a loop, from its call of `wait_and_pop` to the next, is taken as one step with the calls that it
-- makes; the other threads' calls are events of their own. System splits the rounds of workers and
-- publisher threads further, so that other threads step between two calls of a queue; the frames of a
-- worker's sink, which only that worker uses, are drained before the first of them is pushed. A dry
-- run of the publisher is part of Sender, not of System. A call that waits is a step that changes
-- nothing. A command to Redis is stored and answered, or answered with an error, which the code takes
-- for success, or not answered, whether stored or not; two logs keep the batches that are dropped by
-- such an answer or by a stopped queue, and those put back although Redis has stored them. A loop that
-- only an event from outside ends (the connection of a stream, its packets) is a list of its rounds so
-- far, at whose end the thread is still in the loop. What the surroundings decide (clocks, allocations, answers of the network, of the file
-- system and of stop tokens) is an input of the step.
--
-- Machine integers: `size_t` and `uint32_t` wrap around where the code computes with them; `int`
-- narrows where the code casts. Loops are recursion on the lists they walk; the sink of a frame is
-- drained at most five times, as in the code; printed integers have at most twenty digits, which is
-- enough for 64 bits. The loops of a reader that wait for another answer than a frame take fuel, which
-- is enough if the library hands out fewer frames at a time.
--
-- Parameters: simdjson's documents (Config.Json), FFmpeg's filters (Worker.Filter), and its
-- decoders and graphs (StreamIo.Media), as records of the operations that the code calls; hiredis,
-- libcurl, the encoder of images and the environment appear by their results, as inputs.
--
-- Not modelled: the messages of the code (Child.Logging models how one is printed), the waits of the
-- loops, and the freeing of the objects of FFmpeg's filters and decoders, which change nothing that is
-- modelled (Types.Deleters models what the deleters of owning pointers call).
mod Base
pub mod Fifo
pub mod Types
pub mod Publisher
pub mod StreamIo
pub mod Config
pub mod Worker
pub mod Supervisor
pub mod Saver
pub mod Child
pub mod Pipeline
pub mod System
