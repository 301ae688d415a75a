-- ===== src/Cache/Ring.antt =====
-- The doubly linked rings of BufferManager, and what unlinking and linking at the end do to them.
use secondfs_module.Prelude.{
  ℕ, ◌≡◌, ◌≢◌, ◌∙◌, false, true, List, [], ◌∷◌, ◌++◌, arith, update, update_same, update_other, has,
  Distinct,
}

-- `Linked forw back a xs z`: from node `a`, through the nodes `xs`, to node `z`.
pub data Linked (forw back : ℕ → ℕ) : ℕ → List ℕ → ℕ → Type 0 where
  next : {a z : ℕ} → forw a ≡ z → back z ≡ a → Linked forw back a [] z
  through :
      {a x z : ℕ} {xs : List ℕ}
      → forw a ≡ x
      → back x ≡ a
      → Linked forw back x xs z
      → Linked forw back a (x ∷ xs) z

-- The last node before the end.
abbrev pub last_node : ℕ → List ℕ → ℕ
last_node a [] = a
last_node a (x ∷ xs) = last_node x xs

-- The first node after the start, with `z` behind the last.
abbrev pub first_node : List ℕ → ℕ → ℕ
first_node [] z = z
first_node (x ∷ xs) z = x

has-last_node : (a : ℕ) (xs : List ℕ) → has (last_node a xs) (a ∷ xs) ≡ true
has-last_node a [] = ground arith
has-last_node a (x ∷ xs) = ground (arith, has-last_node x xs)

-- A number outside the nodes is not the last one.
pub last_node-outside : (n a : ℕ) (xs : List ℕ) → has n (a ∷ xs) ≡ false → n ≢ last_node a xs
last_node-outside n a xs out e = ground (arith, has-last_node a xs)

module _ {forw back : ℕ → ℕ} where
  pub back-end : {a z : ℕ} (xs : List ℕ) → Linked forw back a xs z → back z ≡ last_node a xs
  back-end [] (next f b) = b
  back-end (x ∷ xs) (through f b l) = back-end xs l

  pub forw-start : {a z : ℕ} (xs : List ℕ) → Linked forw back a xs z → forw a ≡ first_node xs z
  forw-start [] (next f b) = f
  forw-start (x ∷ xs) (through f b l) = f

  pub Linked-append :
      {a x z : ℕ} {xs ys : List ℕ}
      → Linked forw back a xs x
      → Linked forw back x ys z
      → Linked forw back a (xs ++ x ∷ ys) z
  Linked-append (next f b) m = through f b m
  Linked-append (through f b l) m = through f b (Linked-append l m)

  pub Linked-split :
      {a x z : ℕ} (xs : List ℕ) {ys : List ℕ}
      → Linked forw back a (xs ++ x ∷ ys) z
      → Linked forw back a xs x × Linked forw back x ys z
  Linked-split [] (through f b l) = (next f b, l)
  Linked-split (y ∷ xs) (through f b l) = let (m, n) = Linked-split xs l in (through f b m, n)

  -- A link outside the nodes may change.
  pub Linked-frame :
      {a z : ℕ} {xs : List ℕ} (p v q w : ℕ)
      → Linked forw back a xs z
      → has p (a ∷ xs) ≡ false
      → has q xs ≡ false
      → q ≢ z
      → Linked (update forw p v) (update back q w) a xs z
  Linked-frame {a} {z} p v q w (next f b) out in_back ne =
      next (update_other forw p a v (ground arith) ∙ f) (update_other back q z w (ground arith) ∙ b)
  Linked-frame {a} p v q w (through {x} f b l) out in_back ne =
      through (update_other forw p a v (ground arith) ∙ f)
        (update_other back q x w (ground arith) ∙ b)
        (Linked-frame p v q w l (ground arith) (ground arith) ne)

  -- The end moves to `z`.
  pub Linked-redirect :
      {a x : ℕ} (xs : List ℕ) (z : ℕ)
      → Linked forw back a xs x
      → Distinct (a ∷ xs)
      → has z xs ≡ false
      → Linked (update forw (last_node a xs) z) (update back z (last_node a xs)) a xs z
  Linked-redirect {a} [] z (next f b) d out = next (update_same forw a z) (update_same back z a)
  Linked-redirect {a} (y ∷ xs) z (through f b l) (h, d) out =
      through (update_other forw (last_node y xs) a z (last_node-outside a y xs h) ∙ f)
        (update_other back z y (last_node y xs) (ground arith) ∙ b)
        (Linked-redirect xs z l d (ground arith))
