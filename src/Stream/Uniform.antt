-- ===== src/Stream/Uniform.antt =====
-- Actions that write the same bytes on every writer on which they succeed, and that only ever
-- append.
use unverified.Common.{
  ◌≡◌, refl, ap, sym, ◌∙◌, ◌++◌, [], ◌∷◌, List, Bool, true, false, take, append_assoc, append-nil,
  Bool-cases, inl, inr, drop, take-append-drop, if◌then◌else◌, All,
}
use mathlib.Core.Path.{subst}
use unverified.Common.Words.{Bytes}
use unverified.Errors.{
  Error, nil, sentinel, new, exit_status, wrap, pump_error, link_error, preflight_error, is_nil,
}
use unverified.Stream.Sequence.{seq-ok, wrapped-ok}
use unverified.Stream.{
  Writer, Outcome, accepts, breaks, Action, ◌>>◌, unless_failed, write, done, give_up,
  relabel_failure, reliable,
}

pub nil_of : (e : Error) → is_nil e ≡ true → e ≡ nil
nil_of nil h = refl
nil_of (sentinel s) h = cc
nil_of (new m) h = cc
nil_of (exit_status n) h = cc
nil_of (wrap p e q) h = cc
nil_of (pump_error r o e) h = cc
nil_of (link_error r e) h = cc
nil_of (preflight_error r e) h = cc

-- `io.Writer`: a call that takes less than all returns an error.
abbrev pub IsLawfulOutcome : Outcome → Type 0
IsLawfulOutcome accepts = Unit {0}
IsLawfulOutcome (breaks n e) = is_nil e ≡ false

abbrev pub IsLawful : Writer → Type 0
IsLawful w = All IsLawfulOutcome w.plan

-- A run from `w` to `w'` that succeeded: the bytes that it appended are those that the action
-- appends on a writer that never fails.
pub record Wrote (m : Action) (w w' : Writer) : Type 0 where
  pub bytes_added : Bytes
  pub sent : w'.sent ≡ w.sent ++ bytes_added
  pub lawful : IsLawful w'
  pub alike : (s : Bytes) → m (reliable s) ≡ (nil, reliable (s ++ bytes_added))

-- A run that may have failed: what was sent stays, and what it appended are the first of the bytes
-- that the action appends on a writer that never fails.
pub record Grew (m : Action) (w w' : Writer) : Type 0 where
  pub tail : Bytes
  pub rest : Bytes
  pub kept : w'.sent ≡ w.sent ++ tail
  pub part : (m (reliable [])).1.sent ≡ tail ++ rest
  pub lawful : IsLawful w'

-- On a writer that never fails, the error and the bytes do not depend on what was sent before.
abbrev pub Shifts : Action → Type 0
Shifts m =
    (s : Bytes) → m (reliable s) ≡ ((m (reliable [])).0, reliable (s ++ (m (reliable [])).1.sent))

pub record IsUniform (m : Action) : Type 0 where
  pub wrote : (w w' : Writer) → IsLawful w → m w ≡ (nil, w') → Wrote m w w'
  pub grew : (w : Writer) → IsLawful w → Grew m w (m w).1
  pub shifts : Shifts m

-- The same run under an equal end.
retarget : {m : Action} {w t u : Writer} → t ≡ u → Wrote m w t → Wrote m w u
retarget {m} {w} e x = subst (λ (v : Writer). Wrote m w v) e x

write-Wrote :
    (bs : Bytes) (plan : List Outcome) (sent : Bytes) (w' : Writer)
    → All IsLawfulOutcome plan
    → write bs (record { sent = sent; plan = plan }) ≡ (nil, w')
    → Wrote (write bs) (record { sent = sent; plan = plan }) w'
unfolding write
write-Wrote bs [] sent w' l h =
    retarget (ap (λ (x : Error × Writer). x.1) h)
      (record { bytes_added = bs; sent = refl; lawful = tt; alike = λ s. refl })
write-Wrote bs (accepts ∷ plan) sent w' l h =
    retarget (ap (λ (x : Error × Writer). x.1) h)
      (record { bytes_added = bs; sent = refl; lawful = l.1; alike = λ s. refl })
write-Wrote bs (breaks n e ∷ plan) sent w' l h = cc (l.0, ap (λ (x : Error × Writer). is_nil x.0) h)

write-Grew :
    (bs : Bytes) (plan : List Outcome) (sent : Bytes)
    → IsLawful (record { sent = sent; plan = plan })
    → Grew
        (write bs)
        (record { sent = sent; plan = plan })
        (write bs (record { sent = sent; plan = plan })).1
unfolding write
write-Grew bs [] sent l = record {
  tail = bs;
  rest = [];
  kept = refl;
  part = sym (append-nil bs);
  lawful = tt;
}
write-Grew bs (accepts ∷ plan) sent l = record {
  tail = bs;
  rest = [];
  kept = refl;
  part = sym (append-nil bs);
  lawful = l.1;
}
write-Grew bs (breaks n e ∷ plan) sent l = record {
  tail = take n bs;
  rest = drop n bs;
  kept = refl;
  part = sym (take-append-drop n bs);
  lawful = l.1;
}

write-Shifts : (bs : Bytes) → Shifts (write bs)
unfolding write
write-Shifts bs s = refl

pub IsUniform-write : (bs : Bytes) → IsUniform (write bs)
IsUniform-write bs = record {
  wrote = λ w w' l h. write-Wrote bs w.plan w.sent w' l h;
  grew = λ w l. write-Grew bs w.plan w.sent l;
  shifts = write-Shifts bs;
}

-- An action that appends nothing.
same_writer : (m : Action) (w : Writer) → (m (reliable [])).1.sent ≡ [] → IsLawful w → Grew m w w
same_writer m w nothing l = record {
  tail = [];
  rest = [];
  kept = sym (append-nil w.sent);
  part = nothing;
  lawful = l;
}

pub IsUniform-done : IsUniform done
IsUniform-done = record {
  wrote = λ w w' l h. retarget (ap (λ (x : Error × Writer). x.1) h) (record {
    bytes_added = [];
    sent = sym (append-nil w.sent);
    lawful = l;
    alike = λ s. rw append-nil;
  });
  grew = λ w l. same_writer done w refl l;
  shifts = λ s. rw append-nil;
}

pub IsUniform-give_up : (e : Error) → is_nil e ≡ false → IsUniform (give_up e)
IsUniform-give_up e n = record {
  wrote = λ w w' l h. cc (n, ap (λ (x : Error × Writer). is_nil x.0) h);
  grew = λ w l. same_writer (give_up e) w refl l;
  shifts = λ s. rw append-nil;
}

pub IsUniform-if :
    (c : Bool) (m k : Action) → IsUniform m → IsUniform k → IsUniform (if c then m else k)
IsUniform-if true m k um uk = um
IsUniform-if false m k um uk = uk

regroup : (x y z t u : Bytes) → y ≡ x ++ t → z ≡ y ++ u → z ≡ x ++ (t ++ u)
regroup x y z t u e f = f ∙ rw (e, append_assoc x t u)

module _ (m k : Action) (um : IsUniform m) (uk : IsUniform k) where
  seq-Wrote : (w w' : Writer) → IsLawful w → (m >> k) w ≡ (nil, w') → Wrote (m >> k) w w'
  seq-Wrote w w' l h =
      let (first, second) = seq-ok (m w) k w' h in
      let a = um.wrote w (m w).1 l first in
      let b = uk.wrote (m w).1 w' a.lawful second in
      record {
        bytes_added = a.bytes_added ++ b.bytes_added;
        sent = regroup w.sent (m w).1.sent w'.sent a.bytes_added b.bytes_added a.sent b.sent;
        lawful = b.lawful;
        alike = λ s.
            ap (λ (x : Error × Writer). unless_failed x k) (a.alike s)
            ∙ rw (← append_assoc s a.bytes_added b.bytes_added) (b.alike (s ++ a.bytes_added));
      }

  -- The rest of a chain, behind a first part with this error and these bytes.
  rest_shifts :
      (s a : Bytes) (e : Error)
      → (let after = unless_failed (e, reliable a) k in
          unless_failed (e, reliable (s ++ a)) k ≡ (after.0, reliable (s ++ after.1.sent)))
  rest_shifts s a e = elim (Bool-cases (is_nil e)) [
    | inl clean ↦ rw clean (
        uk.shifts (s ++ a)
        ∙ ap (λ (bs : Bytes). ((k (reliable [])).0, reliable bs))
            (append_assoc s a (k (reliable [])).1.sent)
        ∙ ap (λ (x : Error × Writer). (x.0, reliable (s ++ x.1.sent))) (sym (uk.shifts a)))
    | inr failed ↦ rw failed refl
  ]

  seq-Shifts : Shifts (m >> k)
  seq-Shifts s =
      let first = m (reliable []) in
      ap (λ (x : Error × Writer). unless_failed x k) (um.shifts s)
      ∙ rest_shifts s first.1.sent first.0
      ∙ ap
          (λ (x : Error × Writer).
            let after = unless_failed x k in (after.0, reliable (s ++ after.1.sent)))
          (sym (um.shifts []))

  -- The rest of a chain appends at most.
  rest_extends :
      (a : Bytes) (e : Error)
      → (more : Bytes) × ((unless_failed (e, reliable a) k).1.sent ≡ a ++ more)
  rest_extends a e = elim (Bool-cases (is_nil e)) [
    | inl clean ↦
        ((k (reliable [])).1.sent, rw clean (ap (λ (x : Error × Writer). x.1.sent) (uk.shifts a)))
    | inr failed ↦ ([], rw (failed, append-nil a) refl)
  ]

  grow_whole : (w v : Writer) → IsLawful w → m w ≡ (nil, v) → Grew (m >> k) w (k v).1
  grow_whole w v l first =
      let a = um.wrote w v l first in
      let h = uk.grew v a.lawful in
      record {
        tail = a.bytes_added ++ h.tail;
        rest = h.rest;
        kept = regroup w.sent v.sent _ a.bytes_added h.tail a.sent h.kept;
        part =
            ap (λ (x : Error × Writer). (unless_failed x k).1.sent) (a.alike [])
            ∙ ap (λ (x : Error × Writer). x.1.sent) (uk.shifts a.bytes_added)
            ∙ ap (λ (bs : Bytes). a.bytes_added ++ bs) h.part
            ∙ sym (append_assoc a.bytes_added h.tail h.rest);
        lawful = h.lawful;
      }

  grow_cut : (w v : Writer) → Grew m w v → Grew (m >> k) w v
  grow_cut w v g =
      let first = m (reliable []) in
      let (more, extended) = rest_extends first.1.sent first.0 in
      record {
        tail = g.tail;
        rest = g.rest ++ more;
        kept = g.kept;
        part =
            ap (λ (x : Error × Writer). (unless_failed x k).1.sent) (um.shifts [])
            ∙ extended
            ∙ ap (λ (bs : Bytes). bs ++ more) g.part
            ∙ append_assoc g.tail g.rest more;
        lawful = g.lawful;
      }

  grow_on :
      (w : Writer) (x : Error × Writer)
      → IsLawful w
      → m w ≡ x
      → Grew m w x.1
      → Grew (m >> k) w (unless_failed x k).1
  grow_on w (e, v) l ran g = elim (Bool-cases (is_nil e)) [
    | inl clean ↦ rw clean (grow_whole w v l (ran ∙ ap (λ (f : Error). (f, v)) (nil_of e clean)))
    | inr failed ↦ rw failed (grow_cut w v g)
  ]

  pub IsUniform->> : IsUniform (m >> k)
  IsUniform->> = record {
    wrote = seq-Wrote;
    grew = λ w l. grow_on w (m w) l refl (um.grew w l);
    shifts = seq-Shifts;
  }

pub IsUniform-relabel :
    (before after : Bytes) (m : Action)
    → IsUniform m
    → IsUniform (λ w. relabel_failure (λ e. wrap before e after) (m w))
IsUniform-relabel before after m um = record {
  wrote = λ w w' l h.
      let a = um.wrote w w' l (wrapped-ok before after (m w) w' h) in
      record {
        bytes_added = a.bytes_added;
        sent = a.sent;
        lawful = a.lawful;
        alike = λ s. ap (relabel_failure (λ e. wrap before e after)) (a.alike s);
      };
  grew = λ w l.
      let g = um.grew w l in
      record { tail = g.tail; rest = g.rest; kept = g.kept; part = g.part; lawful = g.lawful };
  shifts = λ s. ap (relabel_failure (λ e. wrap before e after)) (um.shifts s);
}
