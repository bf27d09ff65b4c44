-- ===== src/CouplerThread/Publishing.antt =====
-- `Coupler.publish`: a message goes to all publishers, and those in overflow are removed.
use navigation_server.Base.{ℕ, ◌==◌, ◌≡◌, false, List, [], ◌∷◌, if◌then◌else◌, Result, ok, err}
use navigation_server.Publisher.{publish}
use navigation_server.CouplerThread.{Msg, Subscriber, Coupler}

-- p.publish(msg)
abbrev pub given : Subscriber → Msg → Result (Unit {0})
given p m = (publish p.filters p.publisher m).0

abbrev pub after : Subscriber → Msg → Subscriber
after p m = record p { publisher = (publish p.filters p.publisher m).1 }

abbrev pub add_faulty : Result (Unit {0}) → ℕ → List ℕ → List ℕ
add_faulty (ok done) i faulty = faulty
add_faulty (err e) i faulty = i ∷ faulty

-- The loop: the publishers after it, and the faulty ones.
unfoldable pub publish_each : Msg → List Subscriber → List Subscriber × List ℕ
publish_each m [] = ([], [])
publish_each m (p ∷ ps) =
    let rest = publish_each m ps in (after p m ∷ rest.0, add_faulty (given p m) p.ident rest.1)

-- self._publishers.remove(p), the first that is the object
unfoldable pub remove_one : List Subscriber → ℕ → List Subscriber
remove_one [] faulty = []
remove_one (p ∷ ps) faulty =
    let rest = remove_one ps faulty in if p.ident == faulty then ps else p ∷ rest

unfoldable pub remove_faulty : List Subscriber → List ℕ → List Subscriber
unfolding remove_one
remove_faulty ps [] = ps
remove_faulty ps (faulty ∷ more) = remove_faulty (remove_one ps faulty) more

unfoldable pub publish_on : Coupler → Msg → Coupler
unfolding publish_each remove_faulty
publish_on c m =
    let (ps, faulty) = publish_each m c.publishers in
    record c { publishers = remove_faulty ps faulty }

abbrev pub kept : Result (Unit {0}) → Subscriber → List Subscriber → List Subscriber
kept (ok done) p ps = p ∷ ps
kept (err e) p ps = ps

-- What should be left: each publisher that took the message, in order, and no other.
abbrev pub survivors : Msg → List Subscriber → List Subscriber
survivors m [] = []
survivors m (p ∷ ps) = kept (given p m) (after p m) (survivors m ps)

abbrev pub AllOther : ℕ → List Subscriber → Type 0
AllOther i [] = Unit
AllOther i (p ∷ ps) = ((i == p.ident) ≡ false) × AllOther i ps

abbrev pub AreDistinct : List Subscriber → Type 0
AreDistinct [] = Unit
AreDistinct (p ∷ ps) = AllOther p.ident ps × AreDistinct ps

abbrev NoneIs : ℕ → List ℕ → Type 0
NoneIs i [] = Unit
NoneIs i (f ∷ fs) = ((i == f) ≡ false) × NoneIs i fs
