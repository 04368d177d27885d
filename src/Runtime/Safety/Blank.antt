-- ===== src/Runtime/Safety/Blank.antt =====
-- What becomes of white space that is said by itself.
use openlive.Common.{◌<◌, ◌≡◌, true, none, [], ◌∷◌, arith}
use openlive.Common.Text.{codes}
use openlive.Common.Trim.{trim, trim_start, is_whitespace}
use openlive.Runtime.Safety.{
  holdback, SafetyPolicy, new, decide, matches_blocklist, last_boundary, take_complete_clauses,
  after_clauses, hold, scan, observe_delta,
}

-- A line break that is said by itself while nothing is held is lost: a gate that holds clauses back
-- neither releases nor keeps it.
pub line_break_lost :
    (p : SafetyPolicy)
    → p.hold_until_clause ≡ true
    → 0 < p.max_hold_chars
    → matches_blocklist p (10 ∷ []) ≡ none
    → observe_delta (new p) (10 ∷ [])
      ≡ (new p, decide holdback [] (codes "holding for clause boundary"))
unfolding observe_delta scan hold take_complete_clauses after_clauses last_boundary trim trim_start
    is_whitespace
line_break_lost p clauses room clear = ground (arith, clauses, room, clear)
