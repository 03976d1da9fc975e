-- ===== src/Types/Deleters.antt =====
-- utils/types.cpp, lines 16 to 50: what the destructor of an owning pointer calls, by its type; and
-- the name of a thread, types.h, lines 230 to 236.
use frame_processor.Base.{ℕ, List, [], ◌∷◌, Option, none, some, Text, take}

-- The types that the pointers own.
pub data Owned : Type 0 where
  packet frame codec_context format_context filter_graph sws_context parser_context : Owned

-- `av_packet_free`, `av_frame_free`, `avcodec_free_context`, `avformat_close_input`,
-- `avfilter_graph_free`, `sws_freeContext` and `av_parser_close`, with the pointer.
pub record Free : Type 0 where
  pub function_of : Owned
  pub pointer : Option ℕ

-- The first three call the library also with a null pointer.
unfoldable pub delete : Owned → Option ℕ → List Free
delete packet p = record { function_of = packet; pointer = p } ∷ []
delete frame p = record { function_of = frame; pointer = p } ∷ []
delete codec_context p = record { function_of = codec_context; pointer = p } ∷ []
delete format_context none = []
delete format_context (some p) = record { function_of = format_context; pointer = some p } ∷ []
delete filter_graph none = []
delete filter_graph (some p) = record { function_of = filter_graph; pointer = some p } ∷ []
delete sws_context none = []
delete sws_context (some p) = record { function_of = sws_context; pointer = some p } ∷ []
delete parser_context none = []
delete parser_context (some p) = record { function_of = parser_context; pointer = some p } ∷ []

-- `set_current_thread_name`: the name that the kernel is given.
unfoldable pub thread_name : Text → Text
thread_name name = take 15 name
