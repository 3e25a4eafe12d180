-- ===== src/Jobs/Mailbox.antt =====
-- What the jobs of a segment promise: a mailbox with the snapshot that is wanted, if one is, and the one
-- that is committed. Which job works for it, and how often, is forgotten.
pub mod Enqueued
pub mod Worked
pub mod Delivered
pub mod Refines
use reflection.Common.{ℕ, ◌≤◌, ◌<◌, ◌≡◌, refl, Option, none, some}
use reflection.Jobs.Rows.{Snapshot, TargetRow, SegmentRow, Group}

pub record Mailbox : Type 0 where
  pub wanted : Option Snapshot
  pub committed : Option Snapshot

abbrev pub wanted_of : Option TargetRow → Option Snapshot
wanted_of none = none
wanted_of (some t) = some t.snapshot

abbrev pub committed_of : Option SegmentRow → Option Snapshot
committed_of none = none
committed_of (some s) = some s.snapshot

abbrev pub mailbox_of : Group → Mailbox
mailbox_of group = record {
  wanted = wanted_of group.target;
  committed = committed_of group.segment;
}

-- A later generation, and no lower projection version.
abbrev pub IsNewer : Snapshot → Option Snapshot → Type 0
IsNewer new none = Unit
IsNewer new (some old) =
    (old.source_generation < new.source_generation)
    × (old.projection_version ≤ new.projection_version)

-- Who uses the mailbox: a submission, an attempt that ends, the commit of a resolution, an operator who
-- gives up, or one that may not change it.
pub data Use : Type 0 where
  keeping enqueuing ending delivering abandoning : Use

-- What one use may do to a mailbox: nothing; a submission makes a newer snapshot the wanted one; a
-- commit delivers the wanted one, or drops it where what is committed is of a higher projection
-- version; the end of an attempt drops one whose generation is the committed one already; an operator
-- gives the wanted one up.
pub data Change : Use → Mailbox → Mailbox → Type 0 where
  kept : {u : Use} {a b : Mailbox} → b ≡ a → Change u a b
  posted :
      {a b : Mailbox} (new : Snapshot)
      → IsNewer new a.wanted
      → IsNewer new a.committed
      → b ≡ record a { wanted = some new }
      → Change enqueuing a b
  delivered :
      {a b : Mailbox} (new : Snapshot)
      → a.wanted ≡ some new
      → b ≡ record { wanted = none; committed = some new }
      → Change delivering a b
  outdated :
      {a b : Mailbox} (new old : Snapshot)
      → a.wanted ≡ some new
      → a.committed ≡ some old
      → new.projection_version < old.projection_version
      → b ≡ record a { wanted = none }
      → Change delivering a b
  done_already :
      {a b : Mailbox} (new old : Snapshot)
      → a.wanted ≡ some new
      → a.committed ≡ some old
      → new.source_generation ≡ old.source_generation
      → b ≡ record a { wanted = none }
      → Change ending a b
  given_up : {a b : Mailbox} → b ≡ record a { wanted = none } → Change abandoning a b
