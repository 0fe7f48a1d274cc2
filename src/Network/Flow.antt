-- ===== src/Network/Flow.antt =====
-- One direction between two pumps: what the sender has given to its tunnel, what is on the stream,
-- and what the receiver has taken (internal/tunnel/session/pump_linux.go,
-- internal/transport/grpc/wrapper.go).
use unverified.Common.{
  ◌≡◌, refl, ap, sym, ◌∙◌, ◌⊎◌, inl, inr, ℕ, Bool, false, List, [], ◌∷◌, ◌++◌, All, All-append,
  append_assoc, append-nil,
}
use unverified.Common.Words.{Bytes}
use unverified.TunnelPb.{Frame}
use unverified.TunnelPb.Wire.{Message, IsValid, encoding}
use unverified.Transport.Integrity.{encodings, encodings-append}
use unverified.Pump.{Runtime, Down, down_returned}
use unverified.Pump.Transfer.{payloads, pending_up, Carried}
use unverified.Relay.Payloads.{routed-payloads}
use unverified.Relay.Packets.{IsRelay}
use unverified.Network.Offers.{carries, queue, queue-append, IsSmall, IsData}

-- `pumpDown` has returned.
abbrev pub Gone : Down → Type 0
Gone (down_returned e) = Unit {0}
Gone down = ⊥

-- `rest` are the messages on the stream that have not been received, `missing` is what the last of
-- them lacks, and `extra` the packets that the tunnel has refused.
pub record Flow (size : ℕ) (closed : Bool) (sent : List Frame) (input : Bytes) (down : Down)
    (received : List Frame) : Type 0 where
  pub rest : List Message
  pub missing : Bytes
  pub extra : List Bytes
  pub offered : payloads sent ≡ extra ++ (queue rest ++ payloads received)
  pub valid : All IsValid rest
  pub small : All (IsSmall size) rest
  pub unread : (input ++ missing ≡ encodings rest) ⊎ Gone down
  pub open_whole : closed ≡ false → (missing ≡ []) × (extra ≡ []) × All IsData rest

encodings_one : (m : Message) → encodings (m ∷ []) ≡ encoding m
encodings_one m = append-nil (encoding m)

-- The tunnel has put the first part of a message on the stream.
pub Flow-message :
    (size : ℕ) (closed after : Bool) (sent more : List Frame) (input : Bytes) (down : Down)
    (received : List Frame) (m : Message) (tail missing : Bytes)
    → Flow size closed sent input down received
    → closed ≡ false
    → IsValid m
    → IsSmall size m
    → payloads more ≡ carries m ++ payloads sent
    → tail ++ missing ≡ encoding m
    → (after ≡ false → (missing ≡ []) × IsData m)
    → Flow size after more (input ++ tail) down received
Flow-message size closed after sent more input down received m tail missing f opened v s brings cut
      whole =
    let (nothing, none_refused, data_before) = f.open_whole opened in
    record {
      rest = f.rest ++ (m ∷ []);
      missing = missing;
      extra = [];
      offered =
          brings
          ∙ ap (λ (ps : List Bytes). carries m ++ ps)
              (f.offered
                ∙ ap (λ (ps : List Bytes). ps ++ (queue f.rest ++ payloads received)) none_refused)
          ∙ sym (append_assoc (carries m) (queue f.rest) (payloads received))
          ∙ ap (λ (ps : List Bytes). ps ++ payloads received) (sym (queue-append f.rest m));
      valid = All-append IsValid f.rest (m ∷ []) f.valid (v, tt);
      small = All-append (IsSmall size) f.rest (m ∷ []) f.small (s, tt);
      unread = longer f.unread nothing;
      open_whole = λ h.
          let (nothing_missing, data_now) = whole h in
          (nothing_missing, refl, All-append IsData f.rest (m ∷ []) data_before (data_now, tt));
    }
  where
    longer :
        (input ++ f.missing ≡ encodings f.rest) ⊎ Gone down
        → f.missing ≡ []
        → ((input ++ tail) ++ missing ≡ encodings (f.rest ++ (m ∷ []))) ⊎ Gone down
    longer (inr gone) e = inr gone
    longer (inl unread) e = inl (
        append_assoc input tail missing
        ∙ ap (λ (bs : Bytes). input ++ bs) cut
        ∙ ap (λ (bs : Bytes). bs ++ encoding m)
            (sym (append-nil input) ∙ ap (λ (bs : Bytes). input ++ bs) (sym e) ∙ unread)
        ∙ ap (λ (bs : Bytes). encodings f.rest ++ bs) (sym (encodings_one m))
        ∙ sym (encodings-append f.rest (m ∷ [])))

-- The tunnel has refused a frame, or nothing was given to it.
pub Flow-refusal :
    (size : ℕ) (closed after : Bool) (sent more : List Frame) (input : Bytes) (down : Down)
    (received : List Frame) (refused : List Bytes)
    → Flow size closed sent input down received
    → payloads more ≡ refused ++ payloads sent
    → (after ≡ false → (closed ≡ false) × (refused ≡ []))
    → Flow size after more input down received
Flow-refusal size closed after sent more input down received refused f brings still = record {
  rest = f.rest;
  missing = f.missing;
  extra = refused ++ f.extra;
  offered =
      brings
      ∙ ap (λ (ps : List Bytes). refused ++ ps) f.offered
      ∙ sym (append_assoc refused f.extra (queue f.rest ++ payloads received));
  valid = f.valid;
  small = f.small;
  unread = f.unread;
  open_whole = λ h.
      let (opened, none_refused) = still h in
      let (nothing, none_before, data_before) = f.open_whole opened in
      (nothing, ap (λ (ps : List Bytes). ps ++ f.extra) none_refused ∙ none_before, data_before);
}

-- The receiver has gone on without an answer of the stream, or returned.
pub Flow-waits :
    (size : ℕ) (closed : Bool) (sent : List Frame) (input left : Bytes) (down later : Down)
    (received : List Frame)
    → Flow size closed sent input down received
    → (left ≡ input) × (Gone down → Gone later) ⊎ Gone later
    → Flow size closed sent left later received
Flow-waits size closed sent input left down later received f goes = record {
  rest = f.rest;
  missing = f.missing;
  extra = f.extra;
  offered = f.offered;
  valid = f.valid;
  small = f.small;
  unread = kept f.unread goes;
  open_whole = f.open_whole;
}
  where
    kept :
        (input ++ f.missing ≡ encodings f.rest) ⊎ Gone down
        → (left ≡ input) × (Gone down → Gone later) ⊎ Gone later
        → (left ++ f.missing ≡ encodings f.rest) ⊎ Gone later
    kept u (inr gone) = inr gone
    kept (inl unread) (inl (same, still)) = inl (ap (λ (bs : Bytes). bs ++ f.missing) same ∙ unread)
    kept (inr gone) (inl (same, still)) = inr (still gone)

-- What the two pumps have carried.
pub Flow-IsRelay :
    (size : ℕ) (closed : Bool) (input : Bytes) (s r : Runtime)
    → Carried s
    → Carried r
    → Flow size closed s.traffic.sent input r.down r.traffic.received
    → IsRelay s r
Flow-IsRelay size closed input s r cs cr f =
    let before = payloads (pending_up s.up s.memory) in
    (
      before ++ (f.extra ++ queue f.rest),
      routed-payloads s cs
          ∙ ap (λ (ps : List Bytes). before ++ ps) f.offered
          ∙ sym (
              append_assoc before (f.extra ++ queue f.rest) (payloads r.traffic.received)
              ∙ ap (λ (ps : List Bytes). before ++ ps)
                  (append_assoc f.extra (queue f.rest) (payloads r.traffic.received)))
          ∙ ap (λ (ps : List Bytes). (before ++ (f.extra ++ queue f.rest)) ++ ps)
              (sym cr.downwards),
    )
