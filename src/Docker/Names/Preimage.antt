-- ===== src/Docker/Names/Preimage.antt =====
-- What `_digest` hashes determines the parts that it was given.
use Prim.Native.Char.{code}
use control_plane_kit_interp.Base.Text.{all_chars}
use control_plane_kit_interp.Base.{ltb, true, ℕ, ◌≡◌, ◌≢◌, refl, sym, String, List, [], ◌∷◌, ◌++◌}
use control_plane_kit_interp.Base.Lists.{All}
use control_plane_kit_interp.Docker.Names.{Hashing, preimage}

-- Two zero-free byte strings, each closed by a zero, that begin the same bytes are equal.
split_at_zero :
    (a b x y : List ℕ)
    → All (λ n. n ≢ 0) a
    → All (λ n. n ≢ 0) b
    → a ++ (0 ∷ x) ≡ b ++ (0 ∷ y)
    → (a ≡ b) × (x ≡ y)
split_at_zero [] [] x y ha hb e = (refl, cc)
split_at_zero [] (m ∷ b) x y ha (nz, hb) e = absurd (nz (cc))
split_at_zero (n ∷ a) [] x y (nz, ha) hb e = absurd (nz (cc))
split_at_zero (n ∷ a) (m ∷ b) x y (_, ha) (_, hb) e =
    let ih = split_at_zero a b x y ha hb (cc) in (cc (ih.0), ih.1)

-- No character of the text is U+0000.
abbrev pub IsZeroFree : String → Type 0
IsZeroFree s = all_chars (λ c. ltb 0 (code c)) s ≡ true

-- What the documentation of UTF-8 promises: distinct texts have distinct encodings, and no text
-- but the one with the character zero has a zero byte.
pub record IsUtf8 (h : Hashing) : Type 0 where
  pub injective : (s t : String) → h.utf8 s ≡ h.utf8 t → s ≡ t
  pub zero_free : (s : String) → IsZeroFree s → All (λ n. n ≢ 0) (h.utf8 s)

ne-nil_of_preimage : (a x : List ℕ) → a ++ (0 ∷ x) ≢ []
ne-nil_of_preimage [] x e = cc
ne-nil_of_preimage (n ∷ a) x e = cc

-- Two lists of parts without the zero character that `_digest` feeds to the hash as the same bytes
-- are the same list: no two different identities are confused before hashing.
pub preimage-injective :
    (h : Hashing)
    → IsUtf8 h
    → (ps qs : List String) → All IsZeroFree ps
    → All IsZeroFree qs
    → preimage h ps ≡ preimage h qs
    → ps ≡ qs
unfolding preimage
preimage-injective h u [] [] fp fq e = refl
preimage-injective h u [] (q ∷ qs) fp fq e = absurd (ne-nil_of_preimage _ _ (sym e))
preimage-injective h u (p ∷ ps) [] fp fq e = absurd (ne-nil_of_preimage _ _ e)
preimage-injective h u (p ∷ ps) (q ∷ qs) (fp, fps) (fq, fqs) e =
    let (same, rest) = split_at_zero _ _ _ _ (u.zero_free p fp) (u.zero_free q fq) e in
    cc (u.injective p q same, preimage-injective h u ps qs fps fqs rest)
