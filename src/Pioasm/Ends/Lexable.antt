-- ===== src/Pioasm/Ends/Lexable.antt =====
-- Sources without an error of the lexer, rp2/pioasm/pioasm_lexer.c.
use morelibc.Base.{◌≡◌, refl, ap, [], none}
use morelibc.Pioasm.Lexer.{
  Lexer, skip_line, skip_loop, scan_token, skip_whitespace_and_comments, pioasm_lexer_next,
}
use morelibc.Pioasm.Target.{Target}
use morelibc.Pioasm.Ends.{Follows, here, by_token, by_line, IsLexable}

module _ (target : Target) where
  next-empty : (l : Lexer) → l.pos ≡ [] → (pioasm_lexer_next target.float_bits l).0 ≡ none
  unfolding pioasm_lexer_next skip_whitespace_and_comments skip_loop scan_token
  next-empty l e = rw e refl

  next-pos_empty : (l : Lexer) → l.pos ≡ [] → (pioasm_lexer_next target.float_bits l).1.pos ≡ []
  unfolding pioasm_lexer_next skip_whitespace_and_comments skip_loop scan_token
  next-pos_empty l e = rw e refl

  Follows-empty : (l m : Lexer) → Follows target l m → l.pos ≡ [] → m.pos ≡ []
  unfolding skip_line
  Follows-empty l m (here _) e = e
  Follows-empty l m (by_token _ _ f) e = Follows-empty _ m f (next-pos_empty l e)
  Follows-empty l m (by_line _ _ f) e = Follows-empty _ m f (ap skip_line e)

  -- At the end of the source.
  pub IsLexable-empty : (l : Lexer) → l.pos ≡ [] → IsLexable target l
  unfolding IsLexable
  IsLexable-empty l e m f = next-empty m (Follows-empty l m f e)

  -- One token more.
  pub IsLexable-step :
      (l : Lexer)
      → (pioasm_lexer_next target.float_bits l).0 ≡ none
      → IsLexable target (pioasm_lexer_next target.float_bits l).1
      → IsLexable target (record l { pos = skip_line l.pos })
      → IsLexable target l
  unfolding IsLexable
  IsLexable-step l e token line m (here _) = e
  IsLexable-step l e token line m (by_token _ _ f) = token m f
  IsLexable-step l e token line m (by_line _ _ f) = line m f
