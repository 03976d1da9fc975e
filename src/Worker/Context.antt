-- ===== src/Worker/Context.antt =====
-- worker.cpp, lines 285 to 332: the cached graphs and when one is made anew.
use frame_processor.Base.{
  text_key, ℤ, eqb_ℤ, Bool, ◌&&◌, ◌++◌, Option, none, some, Text, codes, decimal, Dict, find,
  insert, if◌then◌else◌,
}
use frame_processor.Types.{DecodedFrame, ProcessingConfig, processing_eq}
use frame_processor.Worker.Filter.{Avfilter, Allocations, create_processing_filter}

pub record StreamProcessingContext (Graph : Type 0) : Type 0 where
  pub graph : Graph
  pub active_config : ProcessingConfig
  pub last_input_width : ℤ
  pub last_input_height : ℤ
  pub last_input_pix_fmt : ℤ

-- The contexts of a thread by their keys; the order of a `std::unordered_map` is never seen.
abbrev pub Contexts : Type 0 → Type 0
Contexts Graph = Dict Text (StreamProcessingContext Graph)

unfoldable pub ctx_key : DecodedFrame → Text
ctx_key d = decimal d.source_config.id ++ (codes "_" ++ d.event_config.name)

-- The test by which a context is used again.
unfoldable pub fits : {Graph : Type 0} → StreamProcessingContext Graph → DecodedFrame → Bool
fits ctx d =
    processing_eq ctx.active_config d.source_config.processing
    && (eqb_ℤ ctx.last_input_width d.frame.width
        && (eqb_ℤ ctx.last_input_height d.frame.height
            && eqb_ℤ ctx.last_input_pix_fmt d.frame.format))

module _ (av : Avfilter) where
  open av use {Graph}

  unfoldable pub new_context : Allocations → DecodedFrame → Option (StreamProcessingContext Graph)
  new_context a d = elim (create_processing_filter av a d.frame d.source_config.processing) [
    | none ↦ none
    | some g ↦ some (record {
      graph = g;
      active_config = d.source_config.processing;
      last_input_width = d.frame.width;
      last_input_height = d.frame.height;
      last_input_pix_fmt = d.frame.format;
    })
  ]

  unfoldable pub reinit :
      Allocations
      → DecodedFrame
      → Contexts Graph
      → Option (StreamProcessingContext Graph × Contexts Graph)
  reinit a d m = elim (new_context a d) [
    | none ↦ none
    | some ctx ↦ some (ctx, insert text_key (ctx_key d) ctx m)
  ]

  -- The context for a frame, and all contexts, in which it stands under the frame's key. `none`: no
  -- graph could be made, and the contexts are as they were.
  unfoldable pub context_for :
      Allocations
      → DecodedFrame
      → Contexts Graph
      → Option (StreamProcessingContext Graph × Contexts Graph)
  context_for a d m = elim (find text_key (ctx_key d) m) [
    | none ↦ reinit a d m
    | some ctx ↦ if fits ctx d then some (ctx, m) else reinit a d m
  ]
