-- ===== src/CouplerThread/Routing.antt =====
-- Which messages a coupler publishes, and which it gives to the NMEA 2000 controller.
use navigation_server.Base.{
  ℕ, ◌+◌, ◌<◌, ◌≡◌, refl, sym, ap, ap₂, ◌∙◌, Bool, true, false, ◌&&◌, ◌||◌, List, [], ◌∷◌, ◌++◌,
  map, length, append_assoc, append-nil, if◌then◌else◌, arith, Bool-cases, inl, inr,
}
use navigation_server.CouplerThread.{n2k, Msg, Coupler, active, OpenResult, is_ready, is_write_only}
use navigation_server.CouplerThread.Reading.{
  Inbound, message, Read, Converter, read, read_from, read_msg, is_fed, stopped_by, waiting,
  last_one,
}
use navigation_server.CouplerThread.Publishing.{publish_on}
use navigation_server.CouplerThread.Loop.{
  Session, go_on, waits, round, round_at, work, nrun, read_unless, read_section, handle_read,
  after_read, handle_all, handle_type, continue_with,
}

-- The thread is in its reading rounds.
pub record IsReading (c : Coupler) : Type 0 where
  pub running : c.stopflag ≡ false
  pub ready : is_ready c.state ≡ true
  pub reads : (is_write_only c.direction || c.suspend_flag) ≡ false
  pub fed : is_fed c.class_of c.reader_started ≡ true

pub published-IsReading :
    (c : Coupler) (m : Msg) (n : ℕ)
    → IsReading c
    → IsReading (publish_on (record c { total_msg = n; state = active }) m)
unfolding publish_on
published-IsReading c m n h = record {
  running = h.running;
  ready = refl;
  reads = h.reads;
  fed = h.fed;
}

pub published-controller :
    (c : Coupler) (m : Msg) (n : ℕ)
    → (publish_on (record c { total_msg = n; state = active }) m).has_controller ≡ c.has_controller
unfolding publish_on
published-controller c m n = refl

module _ (convert : Converter) where
  pub round_reading :
      (answer : OpenResult) (s : Session)
      → IsReading s.coupler
      → round convert answer s ≡ handle_read (read_from convert s.coupler s.inbound) s
  unfolding round read_section read
  round_reading answer s h =
      ap₂ (λ a b. round_at a b convert answer s) h.running h.ready
      ∙ ap (λ a. read_unless a convert s) h.reads
      ∙ ap
          (λ a.
            handle_read
              (if a then read_from convert s.coupler s.inbound else stopped_by waiting s.inbound) s)
          h.fed

abbrev pub AllN2k : List Msg → Type 0
AllN2k [] = Unit
AllN2k (m ∷ ms) = (m.type ≡ n2k) × AllN2k ms

abbrev pub isos : List Msg → List Msg
isos [] = []
isos (m ∷ ms) = if m.is_iso then m ∷ isos ms else isos ms

abbrev pub others : List Msg → List Msg
others [] = []
others (m ∷ ms) = if m.is_iso then others ms else m ∷ others ms

module _ (convert : Converter) where
  -- A message for the controller.
  read_iso :
      (c : Coupler) (m : Msg) (ins : List Inbound)
      → c.has_controller ≡ true
      → m.type ≡ n2k
      → m.is_iso ≡ true
      → read_from convert c (message m ∷ ins)
        ≡ let next = read_from convert c ins in
          record next { to_controller = m ∷ next.to_controller }
  unfolding read_from
  read_iso c m ins controller type iso =
      ap (λ t. read_msg convert c t m ins (read_from convert c ins)) type
      ∙ ap₂
          (λ a b.
            if a && b
            then (let next = read_from convert c ins in
                record next { to_controller = m ∷ next.to_controller })
            else last_one (m ∷ []) ins)
          controller iso

  read_other :
      (c : Coupler) (m : Msg) (ins : List Inbound)
      → c.has_controller ≡ true
      → m.type ≡ n2k
      → m.is_iso ≡ false
      → read_from convert c (message m ∷ ins) ≡ last_one (m ∷ []) ins
  unfolding read_from
  read_other c m ins controller type iso =
      ap (λ t. read_msg convert c t m ins (read_from convert c ins)) type
      ∙ ap₂
          (λ a b.
            if a && b
            then (let next = read_from convert c ins in
                record next { to_controller = m ∷ next.to_controller })
            else last_one (m ∷ []) ins)
          controller iso

  round_iso :
      (answer : OpenResult) (s : Session) (m : Msg) (ins : List Inbound)
      → IsReading s.coupler
      → s.coupler.has_controller ≡ true
      → m.type ≡ n2k
      → m.is_iso ≡ true
      → s.inbound ≡ message m ∷ ins
      → round convert answer s
        ≡ round convert answer (record s { controlled = s.controlled ++ m ∷ []; inbound = ins })
  round_iso answer s m ins reading controller type iso comes =
      let next = read_from convert s.coupler ins in
      round_reading convert answer s reading
      ∙ ap (λ (l : List Inbound). handle_read (read_from convert s.coupler l) s) comes
      ∙ ap (λ (r : Read). handle_read r s) (read_iso s.coupler m ins controller type iso)
      ∙ ap
          (λ (l : List Msg). after_read next.end_of_read (record s {
            coupler = handle_all s.coupler next.yielded;
            inbound = next.later;
            controlled = l;
          }))
          (sym (append_assoc s.controlled (m ∷ []) next.to_controller))
      ∙ sym (
          round_reading convert answer
            (record s { controlled = s.controlled ++ m ∷ []; inbound = ins }) reading)

  round_other :
      (answer : OpenResult) (s : Session) (m : Msg) (ins : List Inbound)
      → IsReading s.coupler
      → s.coupler.has_controller ≡ true
      → m.type ≡ n2k
      → m.is_iso ≡ false
      → s.inbound ≡ message m ∷ ins
      → round convert answer s
        ≡ (go_on, record s { coupler = handle_type n2k s.coupler m; inbound = ins })
  unfolding handle_all
  round_other answer s m ins reading controller type plain comes =
      round_reading convert answer s reading
      ∙ ap (λ (l : List Inbound). handle_read (read_from convert s.coupler l) s) comes
      ∙ ap (λ (r : Read). handle_read r s) (read_other s.coupler m ins controller type plain)
      ∙ ap₂
          (λ t (l : List Msg). (
            go_on,
            record s { coupler = handle_type t s.coupler m; inbound = ins; controlled = l },
          ))
          type (append-nil s.controlled)

  -- With a controller, N2K messages that come one after the other are parted: in order, the ones of the
  -- ISO protocol go to the controller and the other ones are handled by the coupler. More rounds
  -- than there are messages are enough, whatever the device answers, and the thread waits then.
  pub nrun-routes :
      (s : Session) (ms : List Msg) (answers : List OpenResult)
      → IsReading s.coupler
      → s.coupler.has_controller ≡ true
      → AllN2k ms
      → s.inbound ≡ map message ms
      → length ms < length answers
      → nrun convert (map work answers) s ≡ (
        waits,
        record s {
          coupler = handle_all s.coupler (others ms);
          inbound = [];
          controlled = s.controlled ++ isos ms;
        },
      )
  unfolding nrun handle_all read_from
  nrun-routes s ms [] reading controller types comes enough = absurd (omega (arith, enough))
  nrun-routes s [] (a ∷ answers) reading controller types comes enough =
      ap (continue_with (nrun convert (map work answers))) (
        round_reading convert a s reading
        ∙ ap (λ (ins : List Inbound). handle_read (read_from convert s.coupler ins) s) comes)
  nrun-routes s (m ∷ ms) (a ∷ answers) reading controller (type, types) comes enough =
      let routed = λ (b : Bool). record s {
        coupler = handle_all s.coupler (if b then others ms else m ∷ others ms);
        inbound = [];
        controlled = s.controlled ++ (if b then m ∷ isos ms else isos ms);
      } in
      elim (Bool-cases m.is_iso) [
        | inl iso ↦
            ap (continue_with (nrun convert (map work answers)))
              (round_iso a s m (map message ms) reading controller type iso comes)
            ∙ nrun-routes
                (record s { controlled = s.controlled ++ m ∷ []; inbound = map message ms }) ms
                (a ∷ answers) reading controller types refl (omega (arith, enough))
            ∙ ap
                (λ (l : List Msg). (
                  waits,
                  record s {
                    coupler = handle_all s.coupler (others ms);
                    inbound = [];
                    controlled = l;
                  },
                ))
                (append_assoc s.controlled (m ∷ []) (isos ms))
            ∙ ap (λ (b : Bool). (waits, routed b)) (sym iso)
        | inr plain ↦
            let c = handle_type n2k s.coupler m in
            ap (continue_with (nrun convert (map work answers)))
              (round_other a s m (map message ms) reading controller type plain comes)
            ∙ nrun-routes (record s { coupler = c; inbound = map message ms }) ms answers
                (published-IsReading s.coupler m (s.coupler.total_msg + 1) reading)
                (published-controller s.coupler m (s.coupler.total_msg + 1) ∙ controller) types refl
                (omega (arith, enough))
            ∙ ap
                (λ t. (
                  waits,
                  record s {
                    coupler = handle_all (handle_type t s.coupler m) (others ms);
                    inbound = [];
                    controlled = s.controlled ++ isos ms;
                  },
                ))
                (sym type)
            ∙ ap (λ (b : Bool). (waits, routed b)) (sym plain)
      ]
