-- ===== src/Transport/Integrity.antt =====
-- What calls of the tunnel leave on its stream (internal/transport/grpc/wrapper.go).
use unverified.Common.{
  ◌≡◌, refl, ap, ◌∙◌, sym, ◌⊎◌, inl, inr, Bool, true, false, none, List, [], ◌∷◌, ◌++◌,
  append_assoc, append-nil, All, Bool-cases, if◌then◌else◌,
}
use mathlib.Core.Path.{subst}
use unverified.Common.Words.{Bytes}
use unverified.Errors.{transport_closed, Error, nil, sentinel, is_nil}
use unverified.Stream.{Writer, reliable}
use unverified.Stream.Uniform.{IsLawful, Grew, nil_of}
use unverified.TunnelPb.{Frame}
use unverified.TunnelPb.Encode.{write_frame}
use unverified.TunnelPb.Encode.Uniform.{write_frame-IsUniform}
use unverified.TunnelPb.Encode.Sent.{write_frame-IsSent}
use unverified.TunnelPb.Decode.{read_frame}
use unverified.TunnelPb.Wire.{Message, IsValid, encoding}
use unverified.TunnelPb.Wire.Carried.{IsTyped, Carries, IsEmptyPacket}
use unverified.Transport.{
  Tunnel, send_frame, recv_frame, close, close_frame, Call, send, receive, shut, step, run, written,
  accepted_by, accepted, after_send, after_close, after_receive,
}
use unverified.Transport.Laws.{run-closed}
use unverified.Transport.Refused.{
  full_bytes, unwritten, refused_by, refused, refused-closed, accepted-closed,
}

abbrev pub encodings : List Message → Bytes
encodings [] = []
encodings (m ∷ ms) = encoding m ++ encodings ms

-- Frame by frame, the message that it carries: a valid one, or a packet of no bytes.
abbrev pub CarryAll : List Frame → List Message → Type 0
CarryAll [] [] = Unit {0}
CarryAll (f ∷ fs) (m ∷ ms) = (Carries f m × (IsValid m ⊎ IsEmptyPacket m)) × CarryAll fs ms
CarryAll _ _ = ⊥

-- The fields of the frames that a call sends are in the ranges of their Go types.
abbrev pub IsTypedCall : Call → Type 0
IsTypedCall (send f) = IsTyped f
IsTypedCall receive = Unit {0}
IsTypedCall (shut code message) = IsTyped (close_frame code message)

-- What a run from `t` to `u` has done to the stream: the accepted frames, whole and in order, and
-- behind them the first bytes of the refused one, after which the tunnel is closed.
pub record Streamed (t u : Tunnel) (fs torn : List Frame) : Type 0 where
  pub messages : List Message
  pub tail : Bytes
  pub carried : CarryAll fs messages
  pub sent : u.outgoing.sent ≡ t.outgoing.sent ++ (encodings messages ++ tail)
  pub rest : Bytes
  pub part : full_bytes torn ≡ tail ++ rest
  pub clean : (u.closed ≡ true) ⊎ (torn ≡ [])
  pub lawful : IsLawful u.outgoing

Streamed-none : (t u : Tunnel) → IsLawful t.outgoing → u.outgoing ≡ t.outgoing → Streamed t u [] []
Streamed-none t u l e = record {
  messages = [];
  tail = [];
  rest = [];
  part = refl;
  carried = tt;
  sent = ap (λ (w : Writer). w.sent) e ∙ sym (append-nil t.outgoing.sent);
  clean = inr refl;
  lawful = subst IsLawful (sym e) l;
}

module _ (t u : Tunnel) (f : Frame) (e : Error) (w : Writer) (typed : IsTyped f)
    (l : IsLawful t.outgoing) (ran : write_frame f t.outgoing ≡ (e, w)) (end : u.outgoing ≡ w) where
  Streamed-whole : is_nil e ≡ true → Streamed t u (f ∷ []) []
  Streamed-whole clean =
      let x =
        write_frame-IsSent f t.outgoing w typed l
          (ran ∙ ap {B = Error × Writer} (λ (x : Error). (x, w)) (nil_of e clean)) in
      record {
        messages = x.message ∷ [];
        tail = [];
        rest = [];
        part = refl;
        carried = ((x.carried, x.valid), tt);
        sent =
            ap (λ (v : Writer). v.sent) end
            ∙ x.sent
            ∙ ap (λ (bs : Bytes). t.outgoing.sent ++ bs)
                (sym (append-nil (encoding x.message))
                  ∙ sym (append-nil (encoding x.message ++ [])));
        clean = inr refl;
        lawful = subst IsLawful (sym end) x.lawful;
      }

  Streamed-cut : u.closed ≡ true → Streamed t u [] (f ∷ [])
  Streamed-cut closed =
      let grew =
        subst (λ (x : Error × Writer). Grew (write_frame f) t.outgoing x.1) ran
          ((write_frame-IsUniform f).grew t.outgoing l) in
      record {
        messages = [];
        tail = grew.tail;
        rest = grew.rest;
        part = append-nil (write_frame f (reliable [])).1.sent ∙ grew.part;
        carried = tt;
        sent = ap (λ (v : Writer). v.sent) end ∙ grew.kept;
        clean = inl closed;
        lawful = subst IsLawful (sym end) grew.lawful;
      }

  -- One write by `WriteFrame`, as `SendFrame` and `Close` use it.
  Streamed-write :
      (is_nil e ≡ false → u.closed ≡ true) → Streamed t u (written f false e) (unwritten f false e)
  Streamed-write shuts = elim (Bool-cases (is_nil e)) [
    | inl clean ↦ rw clean (Streamed-whole clean)
    | inr failed ↦ rw failed (Streamed-cut (shuts failed))
  ]

-- A call on an open tunnel, from what it does with the writer.
Streamed-call :
    (t : Tunnel) (f : Frame) (called after : Error × Tunnel)
    → t.closed ≡ false
    → called ≡ after
    → Streamed t after.1 (written f false after.0) (unwritten f false after.0)
    → Streamed t called.1 (written f t.closed called.0) (unwritten f t.closed called.0)
Streamed-call t f called after opened e s =
    subst
      (λ (x : Error × Tunnel). Streamed t x.1 (written f t.closed x.0) (unwritten f t.closed x.0))
      (sym e)
      (subst (λ (b : Bool). Streamed t after.1 (written f b after.0) (unwritten f b after.0))
        (sym opened) s)

step-Streamed :
    (c : Call) (t : Tunnel)
    → IsTypedCall c
    → IsLawful t.outgoing
    → t.closed ≡ false
    → Streamed t (step c t) (accepted_by c t) (refused_by c t)
unfolding step accepted_by refused_by send_frame recv_frame close
step-Streamed (send f) t typed l opened =
    let after = after_send t (write_frame f t.outgoing) in
    Streamed-call t f (send_frame f t) after opened
      (ap (λ (b : Bool). if b then (sentinel transport_closed, t) else after) opened)
      (Streamed-write t after.1 f _ _ typed l refl refl
        (λ failed. ap (λ (b : Bool). if b then t.closed else true) failed))
step-Streamed receive t typed l opened = Streamed-none t _ l (
    ap
      (λ (b : Bool).
        (if b
          then ((none, sentinel transport_closed), t)
          else after_receive t (read_frame t.incoming)).1.outgoing)
      opened)
step-Streamed (shut code message) t typed l opened =
    let after = after_close t (write_frame (close_frame code message) t.outgoing) in
    Streamed-call t (close_frame code message) (close code message t) after opened
      (ap (λ (b : Bool). if b then (nil, t) else after) opened)
      (Streamed-write t after.1 (close_frame code message) _ _ typed l refl refl (λ _. refl))

CarryAll-append :
    (fs gs : List Frame) (ms ns : List Message)
    → CarryAll fs ms
    → CarryAll gs ns
    → CarryAll (fs ++ gs) (ms ++ ns)
CarryAll-append [] gs [] ns h k = k
CarryAll-append [] gs (m ∷ ms) ns h k = absurd h
CarryAll-append (f ∷ fs) gs [] ns h k = absurd h
CarryAll-append (f ∷ fs) gs (m ∷ ms) ns (h, hs) k = (h, CarryAll-append fs gs ms ns hs k)

pub encodings-append : (ms ns : List Message) → encodings (ms ++ ns) ≡ encodings ms ++ encodings ns
encodings-append [] ns = refl
encodings-append (m ∷ ms) ns =
    rw (encodings-append ms ns, append_assoc (encoding m) (encodings ms) (encodings ns))

append_assoc_twice : (s a b c : Bytes) → (s ++ a) ++ (b ++ c) ≡ s ++ ((a ++ b) ++ c)
append_assoc_twice s a b c =
    append_assoc s a (b ++ c) ∙ ap (λ (bs : Bytes). s ++ bs) (sym (append_assoc a b c))

left_empty : (a b : Bytes) → [] ≡ a ++ b → a ≡ []
left_empty [] b h = refl
left_empty (x ∷ a) b h = cc

-- A run that went on from an open tunnel.
Streamed-on :
    (t u v : Tunnel) (fs gs ts us : List Frame) (a : Streamed t u fs ts) (b : Streamed u v gs us)
    → ts ≡ []
    → Streamed t v (fs ++ gs) (ts ++ us)
Streamed-on t u v fs gs ts us a b e =
    let whole = left_empty a.tail a.rest (sym (ap full_bytes e) ∙ a.part) in
    let none_torn = ap (λ (hs : List Frame). hs ++ us) e in
    record {
      messages = a.messages ++ b.messages;
      tail = b.tail;
      rest = b.rest;
      part = ap full_bytes none_torn ∙ b.part;
      carried = CarryAll-append fs gs a.messages b.messages a.carried b.carried;
      sent =
          b.sent
          ∙ rw
              (
                a.sent,
                whole,
                append-nil (encodings a.messages),
                encodings-append a.messages b.messages,
              )
              (append_assoc_twice t.outgoing.sent (encodings a.messages) (encodings b.messages)
                b.tail);
      clean = elim b.clean [
        | inl closed ↦ inl closed
        | inr whole_too ↦ inr (none_torn ∙ whole_too)
      ];
      lawful = b.lawful;
    }

-- A run that made no difference any more, since the tunnel was closed.
Streamed-end :
    (cs : List Call) (t u : Tunnel) (fs ts : List Frame)
    → Streamed t u fs ts
    → u.closed ≡ true
    → Streamed t (run cs u) (fs ++ accepted cs u) (ts ++ refused cs u)
Streamed-end cs t u fs ts s h =
    let none_accepted =
      sym (ap (λ (gs : List Frame). fs ++ gs) (accepted-closed cs u h) ∙ append-nil fs) in
    let none_refused =
      sym (ap (λ (gs : List Frame). ts ++ gs) (refused-closed cs u h) ∙ append-nil ts) in
    subst (λ (v : Tunnel). Streamed t v (fs ++ accepted cs u) (ts ++ refused cs u))
      (sym (run-closed cs u h))
      (subst (λ (gs : List Frame). Streamed t u gs (ts ++ refused cs u)) none_accepted
        (subst (Streamed t u fs) none_refused s))

-- Whatever calls are made and wherever the stream fails, the stream holds the messages of the
-- accepted frames, whole and in order; anything behind them is the first part of what `WriteFrame`
-- writes of the refused frames, those whose call on the open tunnel returned an error, and where
-- there is one the tunnel is closed. A write of the stream that takes less than all returns an
-- error, and the fields of the frames are in the ranges of their types.
pub run-Streamed :
    (cs : List Call) (t : Tunnel)
    → All IsTypedCall cs
    → IsLawful t.outgoing
    → Streamed t (run cs t) (accepted cs t) (refused cs t)
unfolding run accepted refused
run-Streamed [] t typed l = Streamed-none t t l refl
run-Streamed (c ∷ cs) t (typed, all) l = elim (Bool-cases t.closed) [
  | inl closed ↦ Streamed-end (c ∷ cs) t t [] [] (Streamed-none t t l refl) closed
  | inr opened ↦
      let s = step-Streamed c t typed l opened in
      let a = accepted_by c t in
      let r = refused_by c t in
      elim s.clean [
        | inl closed ↦ Streamed-end cs t (step c t) a r s closed
        | inr whole ↦
            Streamed-on t (step c t) (run cs (step c t)) a (accepted cs (step c t)) r
              (refused cs (step c t)) s (run-Streamed cs (step c t) all s.lawful) whole
      ]
]
