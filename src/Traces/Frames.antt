-- ===== src/Traces/Frames.antt =====
-- `TraceExecFrameOutput`: whether a frame that was uploaded is acceptable. Texts are kept as the
-- reason that they give.
use valve_infra.Base.{
  ℕ, Bool, true, false, ◌&&◌, Option, none, some, List, [], ◌∷◌, ltb, ◌==◌, if◌then◌else◌,
}

-- `DedupedFrameOutput`
pub record DedupedFrameOutput : Type 0 where
  pub id : ℕ
  pub found_in_release_code_run : Bool
  pub outputs_count_for_gpu : ℕ

-- `deduped_frames` is `trace_deduped_frame_outputs_for_gpu`, which the service answers.
pub record FrameOutput : Type 0 where
  pub deduped_frame_output_id : Option ℕ
  pub is_acceptable : Option Bool
  pub deduped_frames : List DedupedFrameOutput

pub data Reason : Type 0 where
  not_found released unstable unseen marked_acceptable known_unacceptable : Reason
  missing_from_upload not_uploaded missing not_expected : Reason

abbrev pub has_id : Option ℕ → DedupedFrameOutput → Bool
has_id none d = false
has_id (some id) d = d.id == id

-- `deduped_frame_output`
unfoldable pub deduped_frame_output : Option ℕ → List DedupedFrameOutput → Option DedupedFrameOutput
deduped_frame_output id [] = none
deduped_frame_output id (d ∷ ds) = if has_id id d then some d else deduped_frame_output id ds

-- `unstable_output_for_gpu`
unfoldable pub unstable_output_for_gpu : List DedupedFrameOutput → List DedupedFrameOutput
unstable_output_for_gpu [] = []
unstable_output_for_gpu (d ∷ ds) =
    let rest = unstable_output_for_gpu ds in
    if d.found_in_release_code_run && ltb d.outputs_count_for_gpu 20 then d ∷ rest else rest

abbrev pub is_empty : List DedupedFrameOutput → Bool
is_empty [] = true
is_empty (d ∷ ds) = false

abbrev pub assess : Option DedupedFrameOutput → List DedupedFrameOutput → Bool × Reason
assess none frames = (false, not_found)
assess (some d) frames =
    if d.found_in_release_code_run
    then (true, released)
    else if is_empty frames
    then (false, unseen)
    else (true, unstable)

abbrev pub judge : Option Bool → Option DedupedFrameOutput → List DedupedFrameOutput → Bool × Reason
judge none d frames = assess d frames
judge (some true) d frames = (true, marked_acceptable)
judge (some false) d frames = (true, known_unacceptable)

-- `acceptability`
unfoldable pub acceptability : FrameOutput → Bool × Reason
unfolding deduped_frame_output unstable_output_for_gpu
acceptability f =
    judge f.is_acceptable (deduped_frame_output f.deduped_frame_output_id f.deduped_frames)
      (unstable_output_for_gpu f.deduped_frames)
