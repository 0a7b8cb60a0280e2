-- ===== src/Gemini/Trimmed.antt =====
-- A trimmed text is the text less the white space around it (src/gemini_live.rs, `str::trim`).
use kutsu.Base.{
  ◌≡◌, refl, sym, ap, ◌∙◌, true, false, List, [], ◌∷◌, ◌++◌, arith, length, length-append,
}
use kutsu.Base.Bytes.{Bytes}
use kutsu.Gemini.{leading, trailing, strip, reverse, trim}
use kutsu.Gemini.Backwards.{
  append_assoc, concat, reverse_onto, reverse-append, reverse-reverse, backwards, reverse-concat,
}
use kutsu.Gemini.Trim.{
  is_space, is_back_space, each, each-append, Stripped, strip-Stripped, cut_leading, cut_trailing,
}

-- The text without the characters of white space before and after it, and none are left at
-- either end of it.
pub record IsTrimmed (s t : Bytes) : Type 0 where
  pub before : List Bytes
  pub after : List Bytes
  pub joined : s ≡ concat before ++ (t ++ concat after)
  pub spaces_before : each is_space before ≡ true
  pub spaces_after : each is_space after ≡ true
  pub starts : (ch rest : Bytes) → t ≡ ch ++ rest → is_space ch ≡ false
  pub ends : (rest ch : Bytes) → t ≡ rest ++ ch → is_space ch ≡ false

unspaced_leading : (ch rest : Bytes) → leading (ch ++ rest) ≡ 0 → is_space ch ≡ false
unfolding leading is_space
unspaced_leading [] rest z = refl
unspaced_leading (a ∷ []) [] z = ground (arith, z)
unspaced_leading (a ∷ []) (b ∷ []) z = ground (arith, z)
unspaced_leading (a ∷ []) (b ∷ c ∷ s) z = ground (arith, z)
unspaced_leading (a ∷ b ∷ []) [] z = ground (arith, z)
unspaced_leading (a ∷ b ∷ []) (c ∷ s) z = ground (arith, z)
unspaced_leading (a ∷ b ∷ c ∷ []) s z = ground (arith, z)
unspaced_leading (a ∷ b ∷ c ∷ d ∷ ch) s z = refl

unspaced_trailing : (ch rest : Bytes) → trailing (reverse [] ch ++ rest) ≡ 0 → is_space ch ≡ false
unfolding trailing is_space
unspaced_trailing [] rest z = refl
unspaced_trailing (a ∷ []) [] z = ground (arith, z)
unspaced_trailing (a ∷ []) (b ∷ []) z = ground (arith, z)
unspaced_trailing (a ∷ []) (b ∷ c ∷ s) z = ground (arith, z)
unspaced_trailing (a ∷ b ∷ []) [] z = ground (arith, z)
unspaced_trailing (a ∷ b ∷ []) (c ∷ s) z = ground (arith, z)
unspaced_trailing (a ∷ b ∷ c ∷ []) s z = ground (arith, z)
unspaced_trailing (a ∷ b ∷ c ∷ d ∷ ch) s z = refl

length-reverse : (s : Bytes) → length (reverse [] s) ≡ length s
length-reverse [] = refl
length-reverse (a ∷ s) =
    ap length (reverse_onto (a ∷ []) s)
    ∙ length-append (reverse [] s) (a ∷ [])
    ∙ omega (arith, length-reverse s)

each-backwards :
    (chs : List Bytes) → each is_back_space chs ≡ true → each is_space (backwards chs) ≡ true
each-backwards [] h = refl
each-backwards (ch ∷ chs) h =
    each-append is_space (backwards chs) (reverse [] ch ∷ [])
      (each-backwards chs (ground (arith, h))) (ground (arith, h))

trim_both :
    (s start u : Bytes)
    → Stripped leading is_space s start
    → Stripped trailing is_back_space (reverse [] start) u
    → IsTrimmed s (reverse [] u)
trim_both s start u l b =
    let after = backwards b.chs in
    let middle : start ≡ reverse [] u ++ concat after =
      sym (reverse-reverse start)
      ∙ ap (reverse []) b.joined
      ∙ reverse-append (concat b.chs) u
      ∙ ap (◌++◌ (reverse [] u)) (reverse-concat b.chs) in
    record {
      before = l.chs;
      after = after;
      joined = l.joined ∙ ap (◌++◌ (concat l.chs)) middle;
      spaces_before = l.accepted;
      spaces_after = each-backwards b.chs b.accepted;
      starts = λ ch rest h. unspaced_leading ch (rest ++ concat after) (
          ap leading
            (sym (middle ∙ ap (λ t. t ++ concat after) h ∙ append_assoc ch rest (concat after)))
          ∙ l.ended);
      ends = λ rest ch h. unspaced_trailing ch (reverse [] rest) (
          ap trailing (sym (sym (reverse-reverse u) ∙ ap (reverse []) h ∙ reverse-append rest ch))
          ∙ b.ended);
    }

pub trim-IsTrimmed : (s : Bytes) → IsTrimmed s (trim s)
unfolding trim
trim-IsTrimmed s =
    let start = strip leading (length s) s in
    trim_both s start (strip trailing (length start) (reverse [] start))
      (strip-Stripped leading is_space cut_leading (length s) s (omega arith))
      (strip-Stripped trailing is_back_space cut_trailing (length start) (reverse [] start)
        (omega (arith, length-reverse start)))
