-- ===== src/Calls.antt =====
-- Calls of the world outside a component: each acts on a world and returns a value or raises.
pub mod Returns
use limnopulse.Prelude.{◌≡◌, ◌≢◌, Option, none, some}

pub data Outcome (A : Type 0) : Type 0 where
  returned : A → Outcome A
  raised : Outcome A

abbrev pub Call : Type 0 → Type 0 → Type 0
Call W A = W → Outcome A × W

-- A conditional write of a document table, as its documentation states it: it is carried out, or
-- its condition failed on the stored item (which the reply may bring back), or the request failed.
pub data WriteReply (Item : Type 0) : Type 0 where
  written : WriteReply Item
  refused : Option Item → WriteReply Item
  failed : WriteReply Item

-- A strongly consistent document table. A conditional write is one function of the stored item:
-- `none` where its condition fails, and otherwise the item that it stores.
pub record Table (W Key Item : Type 0) : Type 0 where
  pub contents : W → Key → Option Item
  pub get_item : Key → Call W (Option Item)
  pub write_item : Key → (Option Item → Option Item) → W → WriteReply Item × W

-- What the program relies on. A request that failed may have been carried out or not, and says
-- nothing of its key. A reply brings back only the item that is stored.
pub record TableLaws {W Key Item : Type 0} (t : Table W Key Item) : Type 0 where
  pub get_returned :
      (k : Key) (w : W) (o : Option Item) → (t.get_item k w).0 ≡ returned o → o ≡ t.contents w k
  pub get_keeps : (k j : Key) (w : W) → t.contents (t.get_item k w).1 j ≡ t.contents w j
  pub write_written :
      (k : Key) (f : Option Item → Option Item) (w : W)
      → (t.write_item k f w).0 ≡ written
      → (f (t.contents w k) ≢ none) × (t.contents (t.write_item k f w).1 k ≡ f (t.contents w k))
  pub write_refused :
      (k : Key) (f : Option Item → Option Item) (w : W) (o : Option Item)
      → (t.write_item k f w).0 ≡ refused o
      → (f (t.contents w k) ≡ none) × (t.contents (t.write_item k f w).1 k ≡ t.contents w k)
  pub write_refused_item :
      (k : Key) (f : Option Item → Option Item) (w : W) (i : Item)
      → (t.write_item k f w).0 ≡ refused (some i)
      → t.contents w k ≡ some i
  pub write_others :
      (k j : Key) (f : Option Item → Option Item) (w : W)
      → j ≢ k
      → t.contents (t.write_item k f w).1 j ≡ t.contents w j

-- `await` in a chain of calls: an exception ends it, and leaves the world as it was then.
infixl 5 ◌>>=◌
abbrev pub ◌>>=◌ : {W A B : Type 0} → Call W A → (A → Call W B) → Call W B
◌>>=◌ m f w = let (r, w') = m w in elim r [ returned a ↦ f a w' | raised ↦ (raised, w') ]

abbrev pub pure : {W A : Type 0} → A → Call W A
pure a w = (returned a, w)

abbrev pub raise : {W A : Type 0} → Call W A
raise w = (raised, w)
