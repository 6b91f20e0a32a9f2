-- ===== src/Auction/Server/Hears.antt =====
-- One session and one notice: how what is posted to the session goes on.
use mathlib.Core.List.{append-nil}
use architecture_course.Prelude.{
  nat_eq, Option, none, some, List, [], ◌++◌, Bool, true, false, ◌≡◌, refl, sym, subst, arith,
  if◌then◌else◌, is_some,
}
use architecture_course.Auction.Session.WriteQueue.{Writer, new_writer, Posted}
use architecture_course.Auction.Server.{Message}
use architecture_course.Auction.Server.Delivery.{queued}
use architecture_course.Auction.Server.Hearing.{only}

module _ {ℓ} {W : Type ℓ} where
  -- Nothing is posted to a session that was never made; one that was made is in a state that it reaches
  -- when the messages are posted to it.
  abbrev pub Hears : List (Message W) → Option (Writer (Message W)) → Type ℓ
  Hears ps none = ps ≡ []
  Hears ps (some w) = Posted ps w

  pub unchanged :
      (ps : List (Message W)) (o : Option (Writer (Message W))) → Hears ps o → Hears (ps ++ []) o
  unchanged ps o h = subst (λ l. Hears l o) (sym (append-nil ps)) h

  -- A message more, if it is for the session.
  pub Hears-posted :
      (message : Message W) (t : Bool) (ps : List (Message W)) (o : Option (Writer (Message W)))
      → (t ≡ true → is_some o ≡ true)
      → Hears ps o
      → Hears (ps ++ only t message) (if t then queued message o else o)
  Hears-posted message true ps none there h = absurd (ground (arith, there refl))
  Hears-posted message true ps (some w) there h = Posted.posts message h refl
  Hears-posted message false ps o there h = unchanged ps o h

  pub Hears-joined :
      (t : Bool) (ps : List (Message W)) (o : Option (Writer (Message W)))
      → (t ≡ true → o ≡ none)
      → Hears ps o
      → Hears (ps ++ []) (if t then some new_writer else o)
  Hears-joined true ps none fresh e = subst (λ l. Posted (l ++ []) new_writer) (sym e) Posted.start
  Hears-joined true ps (some w) fresh h = absurd (ground (arith, fresh refl))
  Hears-joined false ps o fresh h = unchanged ps o h

  pub Hears-moved :
      (w w' : Writer (Message W)) (t : Bool) (ps : List (Message W))
      (o : Option (Writer (Message W)))
      → ((qs : List (Message W)) → Posted qs w → Posted qs w')
      → (t ≡ true → o ≡ some w)
      → Hears ps o
      → Hears ps (if t then some w' else o)
  Hears-moved w w' true ps o move there h = move ps (subst (Hears ps) (there refl) h)
  Hears-moved w w' false ps o move there h = h
