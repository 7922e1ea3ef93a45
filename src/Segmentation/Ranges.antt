-- ===== src/Segmentation/Ranges.antt =====
-- The part of `build_evidence_record` in segmentation.py that divides the declared scope into
-- ranges.
use knowledge_flow.Contracts.ByteRange
use knowledge_flow.Contracts.ByteRange.{ByteRange}
use knowledge_flow.Contracts.SegmentationProfile.{SegmentationProfile}
pub mod Laws
use knowledge_flow.Common.{ℕ, zero, suc, ◌-◌, true, false, List, [], ◌∷◌}
use knowledge_flow.Common.{map, ltb, if◌then◌else◌}
use knowledge_flow.Common.Text.{Text}
use knowledge_flow.Common.Result.{Result, ok, err, ◌>>=◌, ◌>>◌, out_of_fuel}
use knowledge_flow.Common.Int.{pos}
use knowledge_flow.Common.Value.{num}
use knowledge_flow.Segmentation.Utf8.{Bytes}
use knowledge_flow.Segmentation.Lines.{line_spans}
use knowledge_flow.Segmentation.Markdown.{markdown_boundaries}
use knowledge_flow.Segmentation.Choose.{choose_end, validate_scope_bytes}

-- What the loop reads and does not change.
pub record Cutter : Type 0 where
  pub source : Bytes
  pub scope_end : ℕ
  pub profile : SegmentationProfile
  pub preferred : List ℕ
  pub line_ends : List ℕ

cut : Cutter → ℕ → Result ℕ
unfolding choose_end
cut c cursor =
    choose_end c.source cursor c.scope_end c.profile.target_bytes c.profile.maximum_bytes
      c.preferred c.line_ends

-- The `while` loop. Each round moves the cursor on, so the size of the scope is fuel enough.
ranges_loop : ℕ → Cutter → ℕ → Result (List ByteRange)
unfolding cut ByteRange.init
ranges_loop zero c cursor = if ltb cursor c.scope_end then err out_of_fuel else ok []
ranges_loop (suc fuel) c cursor = elim (ltb cursor c.scope_end) [
  | false ↦ ok []
  | true ↦ do
    stop ← cut c cursor
    r ← ByteRange.init (num (pos cursor)) (num (pos stop))
    rs ← ranges_loop fuel c stop
    ok (r ∷ rs)
]

-- The ranges, and the headings of the source.
pub record Division : Type 0 where
  pub ranges : List ByteRange
  pub heading_events : List (ℕ × List Text)

unfoldable pub divide : Bytes → ByteRange → SegmentationProfile → Result Division
unfolding validate_scope_bytes line_spans markdown_boundaries ranges_loop
divide source declared profile = do
  validate_scope_bytes source declared
  let spans = line_spans source
  marks ← markdown_boundaries source spans
  let cutter : Cutter = record {
    source = source;
    scope_end = declared.end_byte;
    profile = profile;
    preferred = marks.preferred;
    line_ends = map (λ span. span.1) spans;
  }
  ranges ← ranges_loop (declared.end_byte - declared.start_byte) cutter declared.start_byte
  ok (record { ranges = ranges; heading_events = marks.heading_events })
