-- ===== src/Layout/Entries.antt =====
-- Frames entered into a map one after the other, and lists of frames that lie side by side.
use kitmux_linux.Base.{
  ℕ, ◌≡◌, ◌≢◌, refl, sym, ap, subst, ◌∙◌, Bool-cases, ◌⊎◌, inl, inr, some, List, [], ◌∷◌, ◌++◌, All,
  arith, ◌==◌,
}
use kitmux_linux.Base.Map.{get, insert, get-insert, In}
use kitmux_linux.Layout.{PixelRect}
use kitmux_linux.Layout.Geometry.{Inside, Inside-trans, Beside, Beside-sym, Beside-Inside}

abbrev pub Frames : Type 0
Frames = List (ℕ × PixelRect)

unfoldable pub insert_entries : Frames → Frames → Frames
insert_entries [] m = m
insert_entries ((k, r) ∷ es) m = insert_entries es (insert k r m)

pub insert_entries-append :
    (xs ys m : Frames) → insert_entries (xs ++ ys) m ≡ insert_entries ys (insert_entries xs m)
unfolding insert_entries
insert_entries-append [] ys m = refl
insert_entries-append ((k, r) ∷ xs) ys m = insert_entries-append xs ys (insert k r m)

pub In-get :
    (p : ℕ) (r : PixelRect) (es m : Frames)
    → get p (insert_entries es m) ≡ some r
    → In (p, r) es ⊎ (get p m ≡ some r)
unfolding insert_entries
In-get p r [] m h = inr h
In-get p r ((k, q) ∷ es) m h = elim (In-get p r es (insert k q m) h) [
  | inl i ↦ inl (inr i)
  | inr g ↦ elim (Bool-cases (k == p)) [
    | inl e ↦ inl (inl (ground (arith, get-insert k p q m)))
    | inr e ↦ inr (ground (arith, get-insert k p q m))
  ]
]

abbrev pub AllInside : PixelRect → Frames → Type 0
AllInside o = All λ e. Inside e.1 o

-- Each frame of the first list lies beside each of the second.
abbrev pub Cross : Frames → Frames → Type 0
Cross xs ys = All (λ e. All (λ e'. Beside e.1 e'.1) ys) xs

-- Any two frames of the list lie beside one another.
abbrev pub SideBySide : Frames → Type 0
SideBySide [] = Unit
SideBySide (e ∷ es) = All (λ e'. Beside e.1 e'.1) es × SideBySide es

pub All-append :
    (P : ℕ × PixelRect → Type 0) (xs ys : Frames) → All P xs → All P ys → All P (xs ++ ys)
All-append P [] ys a b = b
All-append P (x ∷ xs) ys a b = (a.0, All-append P xs ys a.1 b)

pub All-imp :
    {P Q : ℕ × PixelRect → Type 0} (xs : Frames)
    → ((e : ℕ × PixelRect) → P e → Q e)
    → All P xs
    → All Q xs
All-imp [] f a = tt
All-imp (x ∷ xs) f a = (f x a.0, All-imp xs f a.1)

pub All-In :
    (P : ℕ × PixelRect → Type 0) (e : ℕ × PixelRect) (xs : Frames) → All P xs → In e xs → P e
All-In P e [] a i = absurd i
All-In P e (x ∷ xs) a (inl h) = subst P h a.0
All-In P e (x ∷ xs) a (inr i) = All-In P e xs a.1 i

pub AllInside-mono :
    (o o' : PixelRect) (xs : Frames) → Inside o o' → AllInside o xs → AllInside o' xs
AllInside-mono o o' xs h = All-imp xs λ e i. Inside-trans e.1 o o' i h

pub Beside-All :
    (r a b : PixelRect) (ys : Frames)
    → Inside r a
    → AllInside b ys
    → Beside a b
    → All (λ e'. Beside r e'.1) ys
Beside-All r a b ys i h k = All-imp ys (λ e j. Beside-Inside r e.1 a b i j k) h

pub Cross-Inside :
    (a b : PixelRect) (xs ys : Frames) → AllInside a xs → AllInside b ys → Beside a b → Cross xs ys
Cross-Inside a b xs ys h h' k = All-imp xs (λ e i. Beside-All e.1 a b ys i h' k) h

pub Cross-append_right : (xs ys zs : Frames) → Cross xs ys → Cross xs zs → Cross xs (ys ++ zs)
Cross-append_right [] ys zs h k = tt
Cross-append_right (x ∷ xs) ys zs h k =
    (All-append _ ys zs h.0 k.0, Cross-append_right xs ys zs h.1 k.1)

pub SideBySide-append :
    (xs ys : Frames) → SideBySide xs → SideBySide ys → Cross xs ys → SideBySide (xs ++ ys)
SideBySide-append [] ys a b c = b
SideBySide-append (x ∷ xs) ys a b c =
    (All-append _ xs ys a.0 c.0, SideBySide-append xs ys a.1 b c.1)

-- Frames of different keys lie beside one another.
pub SideBySide-In :
    (p q : ℕ) (r r' : PixelRect) (es : Frames)
    → p ≢ q
    → SideBySide es
    → In (p, r) es
    → In (q, r') es
    → Beside r r'
SideBySide-In p q r r' [] n s i j = absurd i
SideBySide-In p q r r' (e ∷ es) n s (inl h) (inl k) = absurd (n (ap (λ t. t.0) (sym h ∙ k)))
SideBySide-In p q r r' (e ∷ es) n s (inl h) (inr j) =
    rw (ap (λ t. t.1) (sym h)) (All-In _ (q, r') es s.0 j)
SideBySide-In p q r r' (e ∷ es) n s (inr i) (inl k) =
    Beside-sym r' r (rw (ap (λ t. t.1) (sym k)) (All-In _ (p, r) es s.0 i))
SideBySide-In p q r r' (e ∷ es) n s (inr i) (inr j) = SideBySide-In p q r r' es n s.1 i j
