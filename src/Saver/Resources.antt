-- ===== src/Saver/Resources.antt =====
-- What `encode_and_save_jpeg` takes it gives back.
use frame_processor.Base.{
  ◌>>=◌, ◌≡◌, refl, ap, ◌∙◌, eqb_ℤ, Bool, true, false, not, List, [], ◌∷◌, ◌++◌, Option, none, some,
  Text, if_both, if◌then◌else◌,
}
use frame_processor.Types.{Frame}
use frame_processor.Saver.Encode.{
  Resource, codec_context, conversion_frame, sws_context, packet, open_file, Op, acquire, use_of,
  release, writes, Answers, Encoding, yuvj420p, fails, free_all, send, encode_packet, convert,
  encode_and_save_jpeg,
}

-- Which resources are held; each is held at most once.
pub record Held : Type 0 where
  pub codec : Bool
  pub conversion : Bool
  pub sws : Bool
  pub pkt : Bool
  pub file : Bool

abbrev pub nothing : Held
nothing = record { codec = false; conversion = false; sws = false; pkt = false; file = false }

holds : Resource → Held → Bool
holds codec_context h = h.codec
holds conversion_frame h = h.conversion
holds sws_context h = h.sws
holds packet h = h.pkt
holds open_file h = h.file

set : Resource → Bool → Held → Held
set codec_context b h = record h { codec = b }
set conversion_frame b h = record h { conversion = b }
set sws_context b h = record h { sws = b }
set packet b h = record h { pkt = b }
set open_file b h = record h { file = b }

-- A call is refused if it takes what is held, or works with or frees what is not.
unfoldable pub allowed : Op → Held → Option Held
unfolding holds set
allowed (acquire r) h = if holds r h then none else some (set r true h)
allowed (use_of r) h = if holds r h then some h else none
allowed (release r) h = if holds r h then some (set r false h) else none
allowed (writes filepath converted) h = some h

unfoldable pub run : List Op → Held → Option Held
unfolding allowed
run [] h = some h
run (op ∷ ops) h = allowed op h >>= run ops

abbrev pub IsBalanced : Encoding → Type 0
IsBalanced e = run e.ops nothing ≡ some nothing

run-append : (xs ys : List Op) (h : Held) → run (xs ++ ys) h ≡ (run xs h >>= run ys)
unfolding run
run-append [] ys h = refl
run-append (x ∷ xs) ys h = of_allowed (allowed x h) (run-append xs ys)
  where
    of_allowed :
        (o : Option Held)
        → ((h' : Held) → run (xs ++ ys) h' ≡ (run xs h' >>= run ys))
        → (o >>= run (xs ++ ys)) ≡ (o >>= run xs >>= run ys)
    of_allowed none k = refl
    of_allowed (some h') k = k h'

-- What is held when the packet is about to be allocated.
abbrev encoder : Bool → Held
encoder converted = record nothing { codec = true; conversion = converted }

after :
    (xs ys : List Op) (h h' : Held)
    → run xs nothing ≡ some h
    → run ys h ≡ some h'
    → run (xs ++ ys) nothing ≡ some h'
after xs ys h h' p q = run-append xs ys nothing ∙ ap (λ o. o >>= run ys) p ∙ q

abbrev sending : Bool → Held
sending converted = record (encoder converted) { pkt = true }

abbrev writing : Bool → Held
writing converted = record (sending converted) { file = true }

frees : (c : Bool) → run (free_all c) (encoder c) ≡ some nothing
unfolding run free_all
frees true = refl
frees false = refl

drops : (c : Bool) → run (release packet ∷ free_all c) (sending c) ≡ some nothing
unfolding run free_all
drops true = refl
drops false = refl

sends : (c : Bool) → run (acquire packet ∷ send c) (encoder c) ≡ some (sending c)
unfolding run send
sends true = refl
sends false = refl

receives :
    (c : Bool) → run (use_of codec_context ∷ use_of packet ∷ []) (sending c) ≡ some (sending c)
unfolding run
receives c = refl

opens : (c : Bool) → run (acquire open_file ∷ []) (sending c) ≡ some (writing c)
unfolding run
opens c = refl

ends :
    (filepath : Text) (c : Bool)
    → run
        (use_of packet
          ∷ use_of open_file
          ∷ writes filepath c
          ∷ release open_file
          ∷ release packet
          ∷ free_all c)
        (writing c)
      ≡ some nothing
unfolding run free_all
ends filepath true = refl
ends filepath false = refl

encode_packet-IsBalanced :
    (a : Answers) (filepath : Text) (c : Bool) (ops : List Op)
    → run ops nothing ≡ some (encoder c)
    → IsBalanced (encode_packet a filepath c ops)
unfolding encode_packet fails
encode_packet-IsBalanced a filepath c ops h =
    let sent = after ops (acquire packet ∷ send c) (encoder c) (sending c) h (sends c) in
    let received =
      after _ (use_of codec_context ∷ use_of packet ∷ []) (sending c) (sending c) sent
        (receives c) in
    let opened = after _ (acquire open_file ∷ []) (sending c) (writing c) received (opens c) in
    if_both IsBalanced (not a.packet_alloc) (after ops (free_all c) (encoder c) nothing h (frees c))
      (if_both IsBalanced (not a.send_frame)
        (after _ (release packet ∷ free_all c) (sending c) nothing sent (drops c))
        (if_both IsBalanced (not a.receive_packet)
          (after _ (release packet ∷ free_all c) (sending c) nothing received (drops c))
          (if_both IsBalanced (not a.fopen)
            (after _ (release packet ∷ free_all c) (sending c) nothing received (drops c))
            (after _ _ (writing c) nothing opened (ends filepath c)))))

-- Whichever calls fail, each thing that an encoding takes is held whenever it is used and is freed
-- exactly once, and nothing is held at its end.
pub encode-IsBalanced :
    (a : Answers) (frame : Frame) (filepath : Text)
    → IsBalanced (encode_and_save_jpeg a frame filepath)
unfolding encode_and_save_jpeg convert fails free_all run
encode-IsBalanced a frame filepath = if_both IsBalanced (not a.find_encoder) refl (
    if_both IsBalanced (not a.alloc_context) refl (
      if_both IsBalanced (not a.open2) refl (
        if_both IsBalanced (eqb_ℤ frame.format yuvj420p)
          (encode_packet-IsBalanced a filepath false _ refl)
          (if_both IsBalanced (not a.frame_alloc) refl (
            if_both IsBalanced (not a.get_buffer) refl (
              if_both IsBalanced (not a.get_context) refl
                (encode_packet-IsBalanced a filepath true _ refl)))))))
