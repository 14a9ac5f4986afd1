-- ===== src/Fmp4/Writer/Appends.antt =====
-- What code at the end of its output does that only appends to it.
use cmafly.Prelude.{ℕ, ◌+◌, ◌≤◌, ◌<◌, ◌≡◌, refl, ap, sym, ◌∙◌, subst, arith}
use cmafly.Prelude.{
  List, [], ◌∷◌, ◌++◌, append_assoc, append-nil, length, length-append, overwrite_end, overwrite_at,
  u64_mod, Bool, true, false, if◌then◌else◌, All, flat_map, pieces_then,
}
use cmafly.Error.{Result, ok, PackagerError}
use cmafly.Sink.{Sink, Holds}
use cmafly.Fmp4.Writer.{
  Writer, pure, lift, ◌>>=◌, ◌>>◌, each, write_all, stream_position, seek_start,
}

module _ {W : Type 0} ⦃sink : Sink W⦄ where
  -- A run that ends with `bytes` written, at `pos`, and returns `v`.
  abbrev pub Leaves : {A : Type 0} → Result PackagerError (A × W) → List ℕ → ℕ → A → Type 0
  Leaves run bytes at v = (w : W) × Holds w bytes at × (run ≡ ok (v, w))

  -- `m` appends `out`, and returns `v n` behind `n` bytes.
  pub record Appends {A : Type 0} (m : Writer W A) (out : List ℕ) (v : ℕ → A) : Type 0 where
    pub run :
        (w : W) (b : List ℕ)
        → Holds w b (length b)
        → length b + length out < u64_mod
        → Leaves (m w) (b ++ out) (length (b ++ out)) (v (length b))

  abbrev AtEnd : W → List ℕ → Type 0
  AtEnd w b = Holds w b (length b)

  append_nothing : (w : W) (b : List ℕ) → AtEnd w b → AtEnd w (b ++ [])
  append_nothing w b h = subst (AtEnd w) (sym (append-nil b)) h

  pub pure-Appends : {A : Type 0} (v : A) → Appends (pure v) [] (λ n. v)
  pure-Appends v = record { run = λ w b h small. (w, append_nothing w b h, refl) }

  pub write_all-Appends : (new : List ℕ) → Appends (write_all new) new (λ n. tt)
  write_all-Appends new = record {
    run = λ w b h small.
        let (w', held, e) = sink.write_all-Holds w b (length b) new h (omega arith) small in
        (
          w',
          subst (λ n. Holds w' (b ++ new) n) (sym (length-append b new))
              (subst (λ c. Holds w' c (length b + length new)) (overwrite_end b new) held),
          rw e,
        );
  }

  pub stream_position-Appends : Appends stream_position [] (λ n. n)
  stream_position-Appends = record {
    run =
        λ w b h small. (w, append_nothing w b h, rw (sink.stream_position-Holds w b (length b) h));
  }

  -- What code leaves after a first round that succeeds.
  pub run_step :
      {A B : Type 0} (m : Writer W A) (f : A → Writer W B) (w : W) {a : A} {w' : W} {bytes : List ℕ}
      {at : ℕ} {v : B}
      → m w ≡ ok (a, w')
      → Leaves (f a w') bytes at v
      → Leaves ((m >>= f) w) bytes at v
  unfolding ◌>>=◌
  run_step m f w first (w2, h, e) = (w2, h, rw (first, ◌>>=◌) e)

  pub lift_step :
      {A B : Type 0} (r : Result PackagerError A) (f : A → Writer W B) (w : W) {a : A}
      {bytes : List ℕ} {at : ℕ} {v : B}
      → r ≡ ok a
      → Leaves (f a w) bytes at v
      → Leaves ((lift r >>= f) w) bytes at v
  lift_step r f w e = run_step (lift r) f w (rw e)

  -- `seek` to a place that was written, `write_all` over it, and what follows.
  pub patch_step :
      {B : Type 0} (k : Writer W B) (w : W) (front old new rest : List ℕ) (from at : ℕ)
      {bytes : List ℕ} {to : ℕ} {v : B}
      → Holds w (front ++ (old ++ rest)) from
      → at ≡ length front
      → length old ≡ length new
      → length (front ++ (old ++ rest)) < u64_mod
      → ((w' : W) → Holds w' (front ++ (new ++ rest)) (at + length new) → Leaves (k w') bytes to v)
      → Leaves ((seek_start at >> (write_all new >> k)) w) bytes to v
  patch_step k w front old new rest from at h place len small next =
      let size : length (front ++ (old ++ rest)) ≡ length front + (length old + length rest) =
        omega (arith, length-append front (old ++ rest), length-append old rest) in
      let (w1, h1, e1) = sink.seek-Holds w (front ++ (old ++ rest)) from at h (omega arith) in
      let (w2, h2, e2) =
        sink.write_all-Holds w1 (front ++ (old ++ rest)) at new h1 (omega arith) (omega arith) in
      run_step (seek_start at) _ w (rw e1) (
        run_step (write_all new) _ w1 (rw e2) (
          next w2 (
            subst (λ c. Holds w2 c (at + length new)) (overwrite_at front old new rest at place len)
              h2)))

  pub seek_step :
      {B : Type 0} (k : Writer W B) (w : W) (b : List ℕ) (from to : ℕ) {bytes : List ℕ} {at : ℕ}
      {v : B}
      → Holds w b from
      → to ≤ length b
      → ((w' : W) → Holds w' b to → Leaves (k w') bytes at v)
      → Leaves ((seek_start to >> k) w) bytes at v
  seek_step k w b from to h inside next =
      let (w1, h1, e1) = sink.seek-Holds w b from to h inside in
      run_step (seek_start to) _ w (rw e1) (next w1 h1)

  pub position_step :
      {B : Type 0} (f : ℕ → Writer W B) (w : W) (b : List ℕ) (p : ℕ) {bytes : List ℕ} {at : ℕ}
      {v : B}
      → Holds w b p
      → Leaves (f p w) bytes at v
      → Leaves ((stream_position >>= f) w) bytes at v
  position_step f w b p h = run_step stream_position f w (rw (sink.stream_position-Holds w b p h))

  -- The last round.
  pub seek_last :
      (w : W) (b : List ℕ) (from to : ℕ)
      → Holds w b from
      → to ≤ length b
      → Leaves (seek_start to w) b to tt
  seek_last w b from to h inside =
      let (w1, h1, e1) = sink.seek-Holds w b from to h inside in (w1, h1, rw e1)

  -- A round that appends.
  pub append_step :
      {A B : Type 0} {m : Writer W A} {o : List ℕ} {u : ℕ → A} (f : A → Writer W B) (w : W)
      (b : List ℕ) {bytes : List ℕ} {at : ℕ} {v : B}
      → Appends m o u
      → Holds w b (length b)
      → length b + length o < u64_mod
      → ((w' : W) → Holds w' (b ++ o) (length (b ++ o)) → Leaves (f (u (length b)) w') bytes at v)
      → Leaves ((m >>= f) w) bytes at v
  append_step {m} f w b a h small next =
      let (w1, h1, e1) = a.run w b h small in run_step m f w e1 (next w1 h1)

  -- A round that succeeds.
  pub >>=-eq-ok :
      {A B : Type 0} (m : Writer W A) (f : A → Writer W B) (w : W) (a : A) (w' : W)
      → m w ≡ ok (a, w')
      → (m >>= f) w ≡ f a w'
  unfolding ◌>>=◌
  >>=-eq-ok m f w a w' e = rw (e, ◌>>=◌)

  pub bind-Appends :
      {A B : Type 0} {m : Writer W A} (f : A → Writer W B) {o p : List ℕ} {v : ℕ → A}
      {u : ℕ → ℕ → B}
      → Appends m o v
      → ((n : ℕ) → Appends (f (v n)) p (u n))
      → Appends (m >>= f) (o ++ p) (λ n. u n (n + length o))
  bind-Appends {m} f {o} {p} {v} {u} first next = record {
    run = λ w b h small.
        let (w1, h1, e1) = first.run w b h (omega (arith, length-append o p)) in
        let (w2, h2, e2) =
          (next (length b)).run w1 (b ++ o) h1
            (omega (arith, length-append o p, length-append b o)) in
        (
          w2,
          subst (AtEnd w2) (append_assoc b o p) h2,
          >>=-eq-ok m f w (v (length b)) w1 e1
              ∙ e2
              ∙ ap (λ n. ok (u (length b) n, w2)) (length-append b o),
        );
  }

  -- A round of the code that returns nothing.
  pub then-Appends :
      {B : Type 0} {m : Writer W (Unit {0})} {k : Writer W B} {o p : List ℕ} {u : ℕ → B}
      → Appends m o (λ n. tt)
      → Appends k p u
      → Appends (m >> k) (o ++ p) (λ n. u (n + length o))
  then-Appends first next = bind-Appends _ first (λ n. next)

  pub lift-Appends :
      {A : Type 0} (r : Result PackagerError A) (a : A) → r ≡ ok a → Appends (lift r) [] (λ n. a)
  lift-Appends r a e = record { run = λ w b h small. (w, append_nothing w b h, rw e) }

  -- Writes one behind the other, and what follows.
  abbrev pub writes_then : {B : Type 0} → List (List ℕ) → Writer W B → Writer W B
  writes_then [] k = k
  writes_then (p ∷ ps) k = write_all p >> writes_then ps k

  pub writes_then-Appends :
      {k : Writer W (Unit {0})} {o : List ℕ} (ps : List (List ℕ))
      → Appends k o (λ n. tt)
      → Appends (writes_then ps k) (pieces_then ps o) (λ n. tt)
  writes_then-Appends [] a = a
  writes_then-Appends (p ∷ ps) a = then-Appends (write_all-Appends p) (writes_then-Appends ps a)

  -- A loop appends what its rounds append.
  pub each-Appends :
      {X : Type 0} (P : X → Type 0) (body : X → Writer W (Unit {0})) (out : X → List ℕ)
      (xs : List X)
      → All P xs
      → ((x : X) → P x → Appends (body x) (out x) (λ n. tt))
      → Appends (each body xs) (flat_map out xs) (λ n. tt)
  unfolding each
  each-Appends P body out [] all go = pure-Appends tt
  each-Appends P body out (x ∷ xs) (px, all) go =
      then-Appends (go x px) (each-Appends P body out xs all go)

  pub else-Appends :
      {A : Type 0} (b : Bool) (x y : Writer W A) {o : List ℕ} {v : ℕ → A}
      → b ≡ false
      → Appends y o v
      → Appends (if b then x else y) o v
  else-Appends true x y e a = cc
  else-Appends false x y e a = a

  pub if-Appends :
      {A : Type 0} (b : Bool) (x y : Writer W A) {o : List ℕ} {v : ℕ → A}
      → b ≡ true
      → Appends x o v
      → Appends (if b then x else y) o v
  if-Appends true x y e a = a
  if-Appends false x y e a = cc

  -- The same with the bytes and the value in another form.
  pub as_Appends :
      {A : Type 0} {m : Writer W A} {o p : List ℕ} {v u : ℕ → A}
      → Appends m o v
      → o ≡ p
      → ((n : ℕ) → v n ≡ u n)
      → Appends m p u
  as_Appends {m} {o} {p} {v} {u} a same agrees =
      subst (λ q. Appends m q u) same
        (record {
          run = λ w b h small.
              let (w', h', e) = a.run w b h small in
              (w', h', e ∙ ap (λ x. ok (x, w')) (agrees (length b)));
        })
