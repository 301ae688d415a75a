-- ===== src/Cache/Queue/Laws.antt =====
-- The queue of free Bufs under Brelse and NotAvail of UNIXV6PP/BufferManager.cc.
use secondfs_module.Prelude.{
  ℕ, zero, suc, ◌≤◌, ◌≡◌, ◌≢◌, refl, sym, ap, ◌∙◌, false, List, [], ◌∷◌, ◌++◌, arith, update,
  update_same, update_other, has, Distinct,
}
use secondfs_module.Cache.Pool.{Pool, nbuf, b_free_list}
use secondfs_module.Cache.Ring.{
  Linked, next, through, last_node, first_node, last_node-outside, back-end, forw-start,
  Linked-append, Linked-split, Linked-frame, Linked-redirect,
}
use secondfs_module.Cache.Queue.{brelse, not_avail, init_buf, init_bufs, init_heads, initialize}

has-append :
    (n x : ℕ) (xs ys : List ℕ)
    → has n (xs ++ x ∷ ys) ≡ false
    → (has n xs ≡ false) × (n ≢ x) × (has n ys ≡ false)
has-append n x [] ys h = (refl, ground arith, ground arith)
has-append n x (y ∷ xs) ys h =
    let (a, b, c) = has-append n x xs ys (ground arith) in (ground arith, b, c)

append-has :
    (n : ℕ) (xs ys : List ℕ) → has n xs ≡ false → has n ys ≡ false → has n (xs ++ ys) ≡ false
append-has n [] ys h k = k
append-has n (y ∷ xs) ys h k = let rest = append-has n xs ys (ground arith) k in ground arith

-- What it takes for the parts of a list without repetition.
Distinct-split :
    (x : ℕ) (xs ys : List ℕ)
    → Distinct (xs ++ x ∷ ys)
    → Distinct xs × (has x xs ≡ false) × (has x ys ≡ false) × Distinct (xs ++ ys)
Distinct-split x [] ys (h, d) = (tt, refl, h, d)
Distinct-split x (y ∷ xs) ys (h, d) =
    let (a, b, c) = has-append y x xs ys h in
    let (p, q, r, t) = Distinct-split x xs ys d in
    ((a, p), ground arith, r, (append-has y xs ys a c, t))

Distinct-snoc : (x : ℕ) (xs : List ℕ) → Distinct xs → has x xs ≡ false → Distinct (xs ++ x ∷ [])
Distinct-snoc x [] d h = (refl, tt)
Distinct-snoc x (y ∷ xs) (k, d) h =
    (append-has y xs (x ∷ []) k (ground arith), Distinct-snoc x xs d (ground arith))

last_node-apart :
    (a : ℕ) (xs ys : List ℕ) → Distinct (a ∷ (xs ++ ys)) → has (last_node a xs) ys ≡ false
last_node-apart a [] ys (h, d) = h
last_node-apart a (x ∷ xs) ys (h, d) = last_node-apart x xs ys d

pub has-middle :
    (head x : ℕ) (xs ys : List ℕ)
    → Distinct (head ∷ (xs ++ x ∷ ys))
    → has x (head ∷ (xs ++ ys)) ≡ false
has-middle head x xs ys (h, d) =
    let (p, q, r, t) = Distinct-split x xs ys d in
    let (a, ne, c) = has-append head x xs ys h in let rest = append-has x xs ys q r in ground arith

first_node-outside :
    (head : ℕ) (xs ys : List ℕ)
    → has head xs ≡ false
    → Distinct (xs ++ ys)
    → has (first_node ys head) xs ≡ false
first_node-outside head xs [] h d = h
first_node-outside head xs (y ∷ ys) h d = let (p, q, r, t) = Distinct-split y xs ys d in q

append-nil : (xs : List ℕ) → xs ++ [] ≡ xs
append-nil [] = refl
append-nil (x ∷ xs) = ap (λ ys. x ∷ ys) (append-nil xs)

-- The links `forw` and `back` make a ring of `head` and the nodes `xs`.
abbrev pub Ring : (ℕ → ℕ) → (ℕ → ℕ) → ℕ → List ℕ → Type 0
Ring forw back head xs = Linked forw back head xs head × Distinct (head ∷ xs)

module _ {forw back : ℕ → ℕ} where
  -- Linking `x` in at the end.
  pub Ring-append :
      (head x : ℕ) (xs : List ℕ)
      → Ring forw back head xs
      → has x (head ∷ xs) ≡ false
      → let tail = back head in
        Ring
          (update (update forw tail x) x head)
          (update (update back x tail) head x)
          head
          (xs ++ x ∷ [])
  Ring-append head x xs (l, d) out =
      let tail : back head ≡ last_node head xs = back-end xs l in
      let linked : Linked (update forw (back head) x) (update back x (back head)) head xs x =
        rw tail (Linked-redirect xs x l d (ground arith)) in
      (
        Linked-append (Linked-frame x head head x linked out d.0 (ground arith))
            (next (update_same _ x head) (update_same _ head x)),
        (append-has head xs (x ∷ []) d.0 (ground arith), Distinct-snoc x xs d.1 (ground arith)),
      )

  -- The nodes on both sides of a node that is left out are linked.
  Linked-bypass :
      (head x : ℕ) (xs ys : List ℕ)
      → Linked forw back head xs x
      → Linked forw back x ys head
      → Distinct (head ∷ (xs ++ ys))
      → let tail = last_node head xs in
        let first = first_node ys head in
        Distinct (head ∷ xs)
        → has first xs ≡ false
        → Linked (update forw tail first) (update back first tail) head (xs ++ ys) head
  Linked-bypass head x xs [] m n d d' out = rw (append-nil xs) (Linked-redirect xs head m d' out)
  Linked-bypass head x xs (y ∷ ys) m (through f b n) d d' out =
      let (p, q, r, t) = Distinct-split y xs ys d.1 in
      let (h, ne, k) = has-append head y xs ys d.0 in
      Linked-append (Linked-redirect xs y m d' out) (
        Linked-frame (last_node head xs) y y (last_node head xs) n
          (last_node-apart head xs (y ∷ ys) d) r (λ e. ne (sym e)))

  -- Unlinking `x`, as `NotAvail` does it.
  pub Ring-remove :
      (head x : ℕ) (xs ys : List ℕ)
      → Ring forw back head (xs ++ x ∷ ys)
      → let forw' = update forw (back x) (forw x) in
        Ring forw' (update back (forw' x) (back x)) head (xs ++ ys)
  Ring-remove head x xs ys (l, d) =
      let (m, n) = Linked-split xs l in
      let (p, q, r, t) = Distinct-split x xs ys d.1 in
      let (h, ne, k) = has-append head x xs ys d.0 in
      let tail : back x ≡ last_node head xs = back-end xs m in
      let first : forw x ≡ first_node ys head = forw-start ys n in
      let stays : update forw (last_node head xs) (first_node ys head) x ≡ first_node ys head =
        update_other forw (last_node head xs) x _ (last_node-outside x head xs (ground arith))
        ∙ first in
      let d' : Distinct (head ∷ (xs ++ ys)) = (append-has head xs ys h k, t) in
      (
        rw (tail, first, stays)
            (Linked-bypass head x xs ys m n d' (h, p) (first_node-outside head xs ys h d'.1)),
        d',
      )

  Linked-prepend :
      (head x : ℕ) (xs : List ℕ)
      → Linked forw back head xs head
      → Distinct (head ∷ xs)
      → has x (head ∷ xs) ≡ false
      → Linked
          (update (update forw x (forw head)) head x)
          (update (update back x head) (forw head) x)
          head
          (x ∷ xs)
          head
  Linked-prepend head x [] (next f b) d out = rw f (
      through (update_same (update forw x head) head x)
        (update_other (update back x head) head x x (ground arith) ∙ update_same back x head)
        (next (update_other (update forw x head) head x x (ground arith) ∙ update_same forw x head)
          (update_same (update back x head) head x)))
  Linked-prepend head x (y ∷ ys) (through f b l) d out = rw f (
      through (update_same (update forw x y) head x)
        (update_other (update back x head) y x x (ground arith) ∙ update_same back x head)
        (through (update_other (update forw x y) head x x (ground arith) ∙ update_same forw x y)
          (update_same (update back x head) y x)
          (Linked-frame head x y x
            (Linked-frame x y x head l (ground arith) (ground arith) (ground arith)) d.0 d.1.0
            (ground arith))))

  -- Linking `x` in at the front.
  pub Ring-prepend :
      (head x : ℕ) (xs : List ℕ)
      → Ring forw back head xs
      → has x (head ∷ xs) ≡ false
      → let forw' = update forw x (forw head) in
        Ring (update forw' head x) (update (update back x head) (forw' head) x) head (x ∷ xs)
  Ring-prepend head x xs (l, d) out =
      let stays : update forw x (forw head) head ≡ forw head =
        update_other forw x head _ (ground arith) in
      (rw stays (Linked-prepend head x xs l d out), (ground arith, (ground arith, d.1)))

module _ {Disk : Type 0} where
  -- `xs` are the free Bufs, from the one that is next to be used.
  abbrev pub FreeRing : Pool Disk → List ℕ → Type 0
  FreeRing s xs = Ring s.av_forw s.av_back b_free_list xs

  -- Brelse of a Buf that is not in the ring of free Bufs, the head not among them, puts it
  -- behind the last free Buf; the ring stays doubly linked, without repetition and in its
  -- order.
  pub brelse-FreeRing :
      (s : Pool Disk) (bp : ℕ) (xs : List ℕ)
      → FreeRing s xs
      → has bp (b_free_list ∷ xs) ≡ false
      → FreeRing (brelse bp s) (xs ++ bp ∷ [])
  unfolding brelse
  brelse-FreeRing s bp xs ring out = Ring-append b_free_list bp xs ring out

  -- NotAvail of a free Buf takes it out of the ring of free Bufs; the ring of the others stays
  -- doubly linked, without repetition and in its order.
  pub not_avail-FreeRing :
      (s : Pool Disk) (bp : ℕ) (xs ys : List ℕ)
      → FreeRing s (xs ++ bp ∷ ys)
      → FreeRing (not_avail bp s) (xs ++ ys)
  unfolding not_avail
  not_avail-FreeRing s bp xs ys ring = Ring-remove b_free_list bp xs ys ring

-- The pointers 0 to `n - 1`.
abbrev pub first_bufs : ℕ → List ℕ
first_bufs zero = []
first_bufs (suc n) = first_bufs n ++ n ∷ []

has-first_bufs : (m n : ℕ) → n ≤ m → has m (first_bufs n) ≡ false
has-first_bufs m zero h = refl
has-first_bufs m (suc n) h =
    append-has m (first_bufs n) (n ∷ []) (has-first_bufs m n (omega arith)) (ground arith)

module _ {Disk : Type 0} where
  init_bufs-FreeRing :
      (n : ℕ) (s : Pool Disk) → n ≤ 10 → FreeRing s [] → FreeRing (init_bufs n s) (first_bufs n)
  unfolding init_bufs init_buf brelse
  init_bufs-FreeRing zero s h ring = ring
  init_bufs-FreeRing (suc n) s h ring =
      let here : FreeRing (init_bufs n s) (first_bufs n) =
        init_bufs-FreeRing n s (omega arith) ring in
      let rest : has n (first_bufs n) ≡ false = has-first_bufs n n (omega arith) in
      Ring-append b_free_list n (first_bufs n) here (ground arith)

  -- After Initialize the free Bufs are the Bufs 0 to 9 in this order, in a doubly linked ring,
  -- whatever stood in the fields before.
  pub initialize-FreeRing : (s : Pool Disk) → FreeRing (initialize s) (first_bufs nbuf)
  unfolding initialize init_heads
  initialize-FreeRing s = init_bufs-FreeRing 10 (init_heads s) (omega arith) (
    next (update_same s.av_forw b_free_list b_free_list)
        (update_same s.av_back b_free_list b_free_list),
    (refl, tt),
  )
