-- ===== src/AsyncLib/Owners.antt =====
-- Several root tasks on one heap (async_lib/async_lib.hpp): each has the frames of its own path, and the
-- rest of the heap is what its runs leave alone.
use async_sandbox.Prelude.{
  ℕ, ◌≤◌, ◌<◌, ◌≡◌, refl, sym, ◌∙◌, fun_ext, ◌≢◌, Bool, true, false, ◌||◌, none, some, arith, ◌==◌,
  if◌then◌else◌, update, update_self, update_eq, Bool-cases, inl, inr,
}
use async_sandbox.AsyncLib.Machine.{FrameId, Promise, State, running}
use async_sandbox.AsyncLib.Dialogue.{Seq}
use async_sandbox.AsyncLib.Paths.{
  AwaitPath, leaf, under, Frames, Fresh, child, awaits, fill, Placed, fill_keep, fill_base,
}

module _ {V : Type 0} where
  -- The frames of a path behind its root.
  abbrev pub below : AwaitPath V → FrameId → Bool
  below (leaf q k) i = false
  below (under u k π) i = (u == i) || below π i

  abbrev pub without : AwaitPath V → Frames V → Frames V
  without π h i = if below π i then none else h i

  -- The path is on the heap, its last frame in the given state.
  abbrev pub Along : AwaitPath V → Frames V → FrameId → Promise V → State V → Type 0
  Along (leaf q k) h t p st = h t ≡ some (record p { state = st })
  Along (under u k π) h t p st =
      (h t ≡ some (record p { state = awaits u k })) × Along π h u (child p.executor t running) st

  -- The frames of the path are distinct and below `n`.
  abbrev pub Apart : AwaitPath V → ℕ → FrameId → Type 0
  Apart (leaf q k) n t = Unit
  Apart (under u k π) n t =
      (u ≢ t) × (u < n) × (below π t ≡ false) × (below π u ≡ false) × Apart π n u

  pub Apart-mono : (π : AwaitPath V) (n m t : ℕ) → n ≤ m → Apart π n t → Apart π m t
  Apart-mono (leaf q k) n m t le h = tt
  Apart-mono (under u k π) n m t le (a, b, c, d, e) =
      (a, omega arith, c, d, Apart-mono π n m u le e)

  without-under :
      (π : AwaitPath V) (h : Frames V) (u t : FrameId) (k : V → Seq V) (x : Promise V)
      → u ≢ t
      → below π t ≡ false
      → h t ≡ some x
      → update (without (under u k π) h) t (some x) ≡ update (without π h) u none
  without-under π h u t k x d b e = fun_ext λ i. ground arith

  -- Without its frames, and with them filled in again, the heap is as it was.
  pub fill-without :
      (π : AwaitPath V) (h : Frames V) (n t : ℕ) (p : Promise V) (st : State V)
      → Along π h t p st
      → Apart π n t
      → fill π (without π h) t p st ≡ h
  fill-without (leaf q k) h n t p st a b = update_eq h t _ a
  fill-without (under u k π) h n t p st (e, a) (d, lt, bt, bu, b) =
      rw (without-under π h u t k (record p { state = awaits u k }) d bt e) (
        fill_base π (without π h) u none (child p.executor t running) running st
        ∙ fill-without π h n u (child p.executor t running) st a b)

  pub free-Placed :
      (π : AwaitPath V) (f : Frames V) (n t : ℕ) (p : Promise V)
      → Apart π n t
      → ((i : FrameId) → below π i ≡ true → f i ≡ none)
      → Placed π f n t p
  free-Placed (leaf q k) f n t p a h = tt
  free-Placed (under u k π) f n t p (d, lt, bt, bu, b) h = (
    h u (ground arith),
    d,
    lt,
    free-Placed π (update f t _) n u (child p.executor t running) b (λ i e. ground (arith, h i)),
  )

  -- The frames that were on the heap before are not those of a path that is placed there.
  pub kept_not_below :
      (π : AwaitPath V) (f : Frames V) (n t i : ℕ) (p x : Promise V)
      → Placed π f n t p
      → f i ≡ some x
      → below π i ≡ false
  kept_not_below (leaf q k) f n t i p x h e = refl
  kept_not_below (under u k π) f n t i p x (a, d, lt, h) e = elim (Bool-cases (t == i)) [
    | inl y ↦ ground (
      arith,
      a,
      e,
      kept_not_below π (update f t _) n u i (child p.executor t running)
          (record p { state = awaits u k }) h (ground arith),
    )
    | inr y ↦ ground (
      arith,
      a,
      e,
      kept_not_below π (update f t _) n u i (child p.executor t running) x h (ground arith),
    )
  ]

  pub root_not_below :
      (π : AwaitPath V) (f : Frames V) (n t : ℕ) (p : Promise V)
      → Placed π f n t p
      → below π t ≡ false
  root_not_below (leaf q k) f n t p h = refl
  root_not_below (under u k π) f n t p (a, d, lt, h) = ground (
    arith,
    d,
    kept_not_below π (update f t _) n u t (child p.executor t running) _ h (update_self f t _),
  )

  pub Placed-Apart :
      (π : AwaitPath V) (f : Frames V) (n t : ℕ) (p : Promise V) → Placed π f n t p → Apart π n t
  Placed-Apart (leaf q k) f n t p h = tt
  Placed-Apart (under u k π) f n t p (a, d, lt, h) = (
    d,
    lt,
    kept_not_below π (update f t _) n u t (child p.executor t running) _ h (update_self f t _),
    root_not_below π (update f t _) n u (child p.executor t running) h,
    Placed-Apart π (update f t _) n u (child p.executor t running) h,
  )

  pub fill-Along :
      (π : AwaitPath V) (f : Frames V) (n t : ℕ) (p : Promise V) (st : State V)
      → Placed π f n t p
      → Along π (fill π f t p st) t p st
  fill-Along (leaf q k) f n t p st h = update_self f t _
  fill-Along (under u k π) f n t p st (a, d, lt, h) = (
    fill_keep π (update f t _) n u (child p.executor t running) _ st t h (update_self f t _)
        (λ e. d (sym e)),
    fill-Along π (update f t _) n u (child p.executor t running) st h,
  )

  pub fill-Fresh :
      (π : AwaitPath V) (f : Frames V) (n t : ℕ) (p : Promise V) (st : State V)
      → Placed π f n t p
      → t < n
      → Fresh f n
      → Fresh (fill π f t p st) n
  fill-Fresh (leaf q k) f n t p st h lt fr = λ i le. ground (arith, fr i)
  fill-Fresh (under u k π) f n t p st (a, d, lu, h) lt fr =
      fill-Fresh π (update f t _) n u (child p.executor t running) st h lu
        (λ i le. ground (arith, fr i))
