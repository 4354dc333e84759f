-- ===== src/World/Store/Tests.antt =====
-- A store whose facts are a number, to which an observation adds.
use riki.Prelude.{ℕ, ◌+◌, ◌-◌, ◌≡◌, refl, true, [], none, some, pos, ◌==◌, if◌then◌else◌}
use riki.World.History.{create, push, evict, first_kept, size}
use riki.World.Store.{Held, Rules, Store, create_store, apply, reset, commit, set_paused}
use riki.World.Store.Commits.{Chained, writes-Chained}

abbrev counting : Rules ℕ ℕ (Held ℕ) ℕ
counting = record {
  fuse = λ w o now. if o == 0 then (none, 0, 1) else (some (w + o), 1, 0);
  changes = λ before after. after - before;
  clock_of = λ w. some (pos w);
  empty_state = λ now. 0;
  save = λ held. held;
  restore = λ held. (held, []);
}

abbrev fresh : Store ℕ ℕ
fresh = create_store counting 300

two_writes : (apply counting (apply counting fresh 4 10).0 5 20).0.held.facts ≡ 9
unfolding create_store apply commit
two_writes = refl

nothing_new : (apply counting fresh 0 10).1.version ≡ 0
unfolding create_store apply commit
nothing_new = refl

reset_counts_on : (reset counting 300 (apply counting fresh 4 10).0 20).held.version ≡ 2
unfolding create_store apply commit reset
reset_counts_on = refl

fresh-Chained : Chained counting fresh
unfolding create_store create
fresh-Chained = tt

writes-Chained_example :
    Chained counting (apply counting fresh 4 10).0 × Chained counting (reset counting 300 fresh 10)
writes-Chained_example = writes-Chained counting 300 fresh 4 10 fresh-Chained

paused_only : (set_paused fresh true).held.version ≡ 0
unfolding set_paused create_store
paused_only = refl

since_first : size (apply counting fresh 4 10).0.history ≡ 1
unfolding create_store apply commit push evict first_kept create size
since_first = refl
