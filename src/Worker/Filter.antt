-- ===== src/Worker/Filter.antt =====
-- worker.cpp, `create_processing_filter`: the filter graph for frames of one kind.
use frame_processor.Base.{
  ℤ, pos, ltb_ℤ, Bool, not, ◌&&◌, [], ◌++◌, Option, none, Text, codes, decimal, is_empty, ◌>>=◌,
  if◌then◌else◌,
}
use frame_processor.Types.{Pull, Frame, CropConfig, ScaleConfig, ProcessingConfig}

-- What the program uses of FFmpeg's filter library, which is not in the repository. A graph stands
-- for itself with its source and its sink; each call gives the graph that it leaves.
pub record Avfilter : Type 1 where
  pub Graph : Type 0
  pub empty_graph : Graph
  pub create_source : Graph → Text → Option Graph
  pub create_sink : Graph → Option Graph
  pub set_pix_fmts : Graph → ℤ → Graph
  pub parse_ptr : Graph → Text → Option Graph
  pub configure : Graph → Option Graph
  -- Whether the frame is accepted, and the graph.
  pub add_frame : Graph → Frame → Bool × Graph
  -- With the flag that forbids to request frames from upstream.
  pub get_frame : Graph → Bool → Pull × Graph

-- Which allocations succeed while one frame is processed.
pub record Allocations : Type 0 where
  pub graph : Bool
  pub outputs : Bool
  pub inputs : Bool
  pub clone : Bool

-- The description of the source; the time base is written out as 1/1000.
unfoldable pub filter_args : Frame → Text
filter_args f =
    codes "width="
    ++ (decimal f.width
        ++ (codes ":height="
            ++ (decimal f.height
                ++ (codes ":pix_fmt="
                    ++ (decimal f.format
                        ++ (codes ":time_base=1/1000:pixel_aspect="
                            ++ (decimal f.sample_aspect_ratio.num
                                ++ (codes "/" ++ decimal f.sample_aspect_ratio.den))))))))

unfoldable pub crops : CropConfig → Bool
crops c = ltb_ℤ (pos 0) c.width && ltb_ℤ (pos 0) c.height

unfoldable pub scales : ScaleConfig → Bool
scales s = ltb_ℤ (pos 0) s.width && ltb_ℤ (pos 0) s.height

unfoldable pub crop_spec : CropConfig → Text
crop_spec c =
    codes "crop="
    ++ (decimal c.width
        ++ (codes ":"
            ++ (decimal c.height ++ (codes ":" ++ (decimal c.x ++ (codes ":" ++ decimal c.y))))))

unfoldable pub scale_spec : ScaleConfig → Text
scale_spec s = codes "scale=" ++ (decimal s.width ++ (codes ":" ++ decimal s.height))

unfoldable pub filter_spec : ProcessingConfig → Text
filter_spec p =
    let cropped = if crops p.crop then crop_spec p.crop else [] in
    let spec =
      if scales p.scale
      then (if is_empty cropped then cropped else cropped ++ codes ",") ++ scale_spec p.scale
      else cropped in
    if is_empty spec then codes "null" else spec

module _ (av : Avfilter) where
  open av use {Graph, empty_graph, create_source, create_sink, set_pix_fmts, parse_ptr, configure}

  -- `none` is the result `false`; the graph is then freed with its owner.
  unfoldable pub create_processing_filter : Allocations → Frame → ProcessingConfig → Option Graph
  create_processing_filter a f p =
      if not a.graph then none else if not (a.outputs && a.inputs) then none else do
        with_source ← create_source empty_graph (filter_args f)
        with_sink ← create_sink with_source
        linked ← parse_ptr (set_pix_fmts with_sink f.format) (filter_spec p)
        configure linked
