-- ===== src/Gemini/Backwards.antt =====
-- Strings joined and read backwards (src/gemini_live.rs, for `str::trim`).
use kutsu.Base.{◌≡◌, refl, sym, ap, ◌∙◌, List, [], ◌∷◌, ◌++◌}
use kutsu.Base.Bytes.{Bytes}
use kutsu.Gemini.{reverse}

pub append_assoc : (xs ys zs : Bytes) → (xs ++ ys) ++ zs ≡ xs ++ (ys ++ zs)
append_assoc [] ys zs = refl
append_assoc (x ∷ xs) ys zs = ap (◌∷◌ x) (append_assoc xs ys zs)

pub append_nil : (xs : Bytes) → xs ++ [] ≡ xs
append_nil [] = refl
append_nil (x ∷ xs) = ap (◌∷◌ x) (append_nil xs)

-- The characters of a text, one after another.
abbrev pub concat : List Bytes → Bytes
concat [] = []
concat (ch ∷ chs) = ch ++ concat chs

pub concat-append : (xs ys : List Bytes) → concat (xs ++ ys) ≡ concat xs ++ concat ys
concat-append [] ys = refl
concat-append (x ∷ xs) ys =
    ap (◌++◌ x) (concat-append xs ys) ∙ sym (append_assoc x (concat xs) (concat ys))

pub reverse_onto : (acc s : Bytes) → reverse acc s ≡ reverse [] s ++ acc
reverse_onto acc [] = refl
reverse_onto acc (a ∷ s) =
    reverse_onto (a ∷ acc) s
    ∙ sym (append_assoc (reverse [] s) (a ∷ []) acc)
    ∙ ap (λ t. t ++ acc) (sym (reverse_onto (a ∷ []) s))

reverse_past : (acc s t : Bytes) → reverse acc (s ++ t) ≡ reverse (reverse acc s) t
reverse_past acc [] t = refl
reverse_past acc (a ∷ s) t = reverse_past (a ∷ acc) s t

pub reverse-append : (s t : Bytes) → reverse [] (s ++ t) ≡ reverse [] t ++ reverse [] s
reverse-append s t = reverse_past [] s t ∙ reverse_onto (reverse [] s) t

pub reverse-reverse : (s : Bytes) → reverse [] (reverse [] s) ≡ s
reverse-reverse [] = refl
reverse-reverse (a ∷ s) =
    ap (reverse []) (reverse_onto (a ∷ []) s)
    ∙ reverse-append (reverse [] s) (a ∷ [])
    ∙ ap (◌∷◌ a) (reverse-reverse s)

-- A text read backwards: its characters in the opposite order, each read backwards.
abbrev pub backwards : List Bytes → List Bytes
backwards [] = []
backwards (ch ∷ chs) = backwards chs ++ (reverse [] ch ∷ [])

pub reverse-concat : (chs : List Bytes) → reverse [] (concat chs) ≡ concat (backwards chs)
reverse-concat [] = refl
reverse-concat (ch ∷ chs) =
    reverse-append ch (concat chs)
    ∙ ap (λ t. t ++ reverse [] ch) (reverse-concat chs)
    ∙ ap (◌++◌ (concat (backwards chs))) (sym (append_nil (reverse [] ch)))
    ∙ sym (concat-append (backwards chs) (reverse [] ch ∷ []))
