-- ===== src/Saver/Encode.antt =====
-- frame_saver.cpp, `encode_and_save_jpeg`, lines 106 to 237: the calls of FFmpeg and of the file
-- system that take, use and give back something, in their order.
use frame_processor.Base.{
  ℤ, pos, eqb_ℤ, Bool, true, false, not, List, [], ◌∷◌, ◌++◌, Text, if◌then◌else◌,
}
use frame_processor.Types.{Frame}

-- `codec_ctx`, `convert_frame`, `sws_ctx`, `pkt` and `file`.
pub data Resource : Type 0 where
  codec_context conversion_frame sws_context packet open_file : Resource

-- A call that gives a resource, works with one, or frees it; and the writing of the image, which is
-- made from the converted frame or from the frame itself, to a path.
pub data Op : Type 0 where
  acquire use_of release : Resource → Op
  writes : Text → Bool → Op

-- Which calls succeed.
pub record Answers : Type 0 where
  pub find_encoder : Bool
  pub alloc_context : Bool
  pub open2 : Bool
  pub frame_alloc : Bool
  pub get_buffer : Bool
  pub get_context : Bool
  pub packet_alloc : Bool
  pub send_frame : Bool
  pub receive_packet : Bool
  pub fopen : Bool

pub record Encoding : Type 0 where
  pub result : Bool
  pub ops : List Op

-- `AV_PIX_FMT_YUVJ420P`.
abbrev pub yuvj420p : ℤ
yuvj420p = pos 12

unfoldable pub fails : List Op → Encoding
fails ops = record { result = false; ops = ops }

-- The frees at the end, and of a failure after the conversion; a frame is freed if one was made.
unfoldable pub free_all : Bool → List Op
free_all converted =
    if converted
    then release conversion_frame ∷ release codec_context ∷ []
    else release codec_context ∷ []

-- The calls on the encoder name the frame that is sent, if it is the converted one.
unfoldable pub send : Bool → List Op
send converted =
    if converted
    then use_of codec_context ∷ use_of conversion_frame ∷ []
    else use_of codec_context ∷ []

-- The encoding of `src_frame`, after the calls `ops`.
unfoldable pub encode_packet : Answers → Text → Bool → List Op → Encoding
encode_packet a filepath converted ops =
    if not a.packet_alloc
    then fails (ops ++ free_all converted)
    else let sent = ops ++ (acquire packet ∷ send converted) in
      let received = sent ++ use_of codec_context ∷ use_of packet ∷ [] in
      let opened = received ++ acquire open_file ∷ [] in
      if not a.send_frame
      then fails (sent ++ (release packet ∷ free_all converted))
      else if not a.receive_packet
      then fails (received ++ (release packet ∷ free_all converted))
      else if not a.fopen
      then fails (received ++ (release packet ∷ free_all converted))
      else record {
        result = true;
        ops =
            opened
            ++ (use_of packet
                ∷ use_of open_file
                ∷ writes filepath converted
                ∷ release open_file
                ∷ release packet
                ∷ free_all converted);
      }

-- A frame of another format is converted first.
unfoldable pub convert : Answers → Text → List Op → Encoding
convert a filepath ops =
    if not a.frame_alloc
    then fails (ops ++ release codec_context ∷ [])
    else let allocated = ops ++ acquire conversion_frame ∷ use_of conversion_frame ∷ [] in
      if not a.get_buffer
      then fails (allocated ++ free_all true)
      else if not a.get_context
      then fails (allocated ++ free_all true)
      else encode_packet a filepath true (
          allocated
          ++ acquire sws_context
            ∷ use_of sws_context
            ∷ use_of conversion_frame
            ∷ release sws_context
            ∷ [])

unfoldable pub encode_and_save_jpeg : Answers → Frame → Text → Encoding
encode_and_save_jpeg a frame filepath =
    if not a.find_encoder
    then fails []
    else if not a.alloc_context
    then fails []
    else let opened = acquire codec_context ∷ use_of codec_context ∷ [] in
      if not a.open2
      then fails (opened ++ release codec_context ∷ [])
      else if eqb_ℤ frame.format yuvj420p
      then encode_packet a filepath false opened
      else convert a filepath opened
