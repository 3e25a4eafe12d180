-- ===== src/Jobs/Eligible.antt =====
-- server/src/database.ts: `STAGED_TARGET_ELIGIBILITY_SQL` and what it tests, for a staged extraction
-- and for a committed segment.
use reflection.Common.{ℕ, Bool, ◌&&◌, ◌||◌, not, some, leb, ◌==◌, all}
use reflection.Common.Text.{Text, text_eq}
use reflection.Jobs.Codec.{Codec}
use reflection.Jobs.Rows.{Staged, TargetRow, SegmentRow, same_text?}

-- `summary !~ BLANK_SUMMARY_SQL_PATTERN`
abbrev is_blank_unit : ℕ → Bool
is_blank_unit u =
    leb 0x9 u && leb u 0xd
    || u == 0x20
    || u == 0xa0
    || u == 0x1680
    || leb 0x2000 u && leb u 0x200a
    || leb 0x2028 u && leb u 0x2029
    || u == 0x202f
    || u == 0x205f
    || u == 0x3000
    || u == 0xfeff

unfoldable pub summary_has_content : Text → Bool
summary_has_content summary = not (all is_blank_unit summary)

-- `EXTRACTION_VALIDATION_VERSION`, `PROJECTION_SAFE_VERSION`
abbrev pub extraction_validation_version : ℕ
extraction_validation_version = 3

abbrev pub projection_safe_version : ℕ
projection_safe_version = 1

module _ {M : Type 0} (codec : Codec M) where
  -- `STAGED_TARGET_ELIGIBILITY_SQL`, where there is a staged extraction.
  unfoldable pub staged_eligible : TargetRow → Staged → Bool
  staged_eligible target staged =
      let summary = codec.stored_summary staged.extraction_result in
      same_text? target.snapshot.source_fingerprint
        (some (codec.stored_fingerprint target.snapshot.mark target.payload))
      && staged.extraction_validation_version == extraction_validation_version
      && text_eq staged.extraction_validation_fingerprint (
          codec.validation_fingerprint staged.extraction_result staged.extraction_validation_version
            target.snapshot.source_fingerprint)
      && summary_has_content summary
      && text_eq staged.summary_commit_fingerprint (
          codec.stored_projection_fingerprint target.snapshot.mark summary
            target.snapshot.projection_version)

  -- `s.projection_commit_fingerprint = reflection_projection_fingerprint(...)`
  unfoldable pub projection_safe : SegmentRow → Bool
  projection_safe segment = text_eq segment.projection_commit_fingerprint (
      codec.stored_projection_fingerprint segment.snapshot.mark segment.summary
        segment.snapshot.projection_version)
