-- ===== src/Datastore/Observable.antt =====
-- packages/cli/services/datastore/utils/observableList.go. An operation holds the lock of the items for
-- as long as it reads or writes them. What an observer sees is the list as it is at its first read and at
-- each later notification; its context is done where these end, or after some number of sends: where an
-- item and the end of the context are both ready, `select` takes either.
pub mod Reads
use cogment.Prelude.{
  ℕ, zero, suc, ◌+◌, Bool, true, false, Option, none, some, List, [], ◌∷◌, ◌++◌, leb, ltb, ◌||◌,
  ◌-◌, if◌then◌else◌, length, get_elem?, take, drop,
}

pub record ObservableList (A : Type 0) : Type 0 where
  pub items : List A
  pub ended : Bool

-- What a read of an item gives: a slice index out of range stops the process.
pub data Read (A : Type 0) : Type 0 where
  found : A → Read A
  missing : Read A
  panics : Read A

module _ {A : Type 0} where
  unfoldable pub new_observable_list : ObservableList A
  new_observable_list = record { items = []; ended = false }

  abbrev pub item_count : ObservableList A → ℕ
  item_count l = length l.items

  abbrev pub has_ended : ObservableList A → Bool
  has_ended l = l.ended

  abbrev at_index : Option A → Read A
  at_index none = panics
  at_index (some a) = found a

  -- Indices are not negative.
  unfoldable pub item : ObservableList A → ℕ → Read A
  item l index = if ltb (item_count l) index then missing else at_index (get_elem? l.items index)

  unfoldable pub append : ObservableList A → A → Bool → ObservableList A
  append l a last_item = record { items = l.items ++ (a ∷ []); ended = last_item }

  -- The items from the start on, if it is within the list.
  abbrev pub items_from : ObservableList A → ℕ → List A
  items_from l from = if leb from (item_count l) then drop from l.items else []

  -- The loops of `Observe`, with the number of items that are sent before the context is done: what is
  -- sent until the list ends, or the context is done at a send or while the loop waits for an update.
  unfoldable pub observe_rounds : ℕ → ObservableList A → List (ObservableList A) → ℕ → List A
  observe_rounds sends l [] from = take sends (items_from l from)
  observe_rounds sends l (l' ∷ later) from =
      let current_items = items_from l from in
      let rest =
        observe_rounds (sends - length current_items) l' later
          (if leb from (item_count l) then item_count l else from) in
      if l.ended || ltb sends (length current_items)
      then take sends current_items
      else current_items ++ rest

  -- `none`: the slice of a list that has ended starts beyond its end, and the process stops.
  unfoldable pub observe : ℕ → ObservableList A → List (ObservableList A) → ℕ → Option (List A)
  unfolding observe_rounds
  observe sends l later from =
      if has_ended l
      then (if leb from (item_count l) then some (take sends (drop from l.items)) else none)
      else some (observe_rounds sends l later from)
