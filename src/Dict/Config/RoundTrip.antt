-- ===== src/Dict/Config/RoundTrip.antt =====
-- A configuration value that was written is read back, once, under its ETag.
use check.Common.{
  ℕ, pos, ◌<◌, suc, ◌≡◌, refl, String, true, false, Option, none, some, [], str_eq, str_eq_refl, ok,
  update_where, insert_row, find?, with_tx,
}
use check.Dict.Defs.{Bytes, actor_ptr}
use check.Dict.Config.{
  AppConfig, ConfigTable, AppConfigUpdate, SwapConfigArgs, active, deactivate, new_config,
  put_config, get_active_config, get_config,
}
use check.Dict.Config.History.{IsVersioned, count, swap_body-eq-ok}
use check.Dict.Config.Etag.{quoted, etag_matches-quoted, find-swapped}

module _ (digest : String → Bytes) (t : ConfigTable) (key value : String) (desc : Option String)
    (actor : ℕ) where
  abbrev pub args : SwapConfigArgs
  args = record {
    key = key;
    value = value;
    content_hash = digest value;
    description = desc;
    updated_by = actor_ptr actor;
  }

  abbrev pub written : AppConfig
  written = new_config args t.next_id (pos (suc (count key t.rows)))

  abbrev pub request : AppConfigUpdate
  request = record { value = some value; description = desc }

  abbrev installed : ConfigTable
  installed = record t {
    rows = insert_row written (update_where (active key) (deactivate (actor_ptr actor)) t.rows);
    next_id = suc t.next_id;
  }

  active-found :
      (u : ConfigTable) (c : AppConfig)
      → find? (active key) u.rows ≡ some c
      → get_active_config false key u ≡ ok c
  unfolding get_active_config
  active-found u c e = rw e

  put-eq :
      IsVersioned t
      → str_eq key "" ≡ false
      → count key t.rows < 2147483647
      → put_config digest (λ _. false) t key request actor ≡ (installed, ok written)
  unfolding put_config with_tx
  put-eq w n l = rw (n, swap_body-eq-ok args t w l)

  -- After a write that the database does not fail, of a table whose versions are in order and a
  -- key that is not empty and has had fewer than 2147483647 versions: a read returns the written value as the next version with the digest
  -- as its ETag, and a read with that ETag in quotes is answered as not modified.
  pub put_config-get_config :
      IsVersioned t
      → str_eq key "" ≡ false
      → count key t.rows < 2147483647
      → (let t' = (put_config digest (λ _. false) t key request actor).0 in
          (get_config false t' key []
            ≡ ok (record { config = some written; etag = digest value; not_modified = false }))
          × (get_config false t' key (quoted (digest value))
              ≡ ok (record { config = none; etag = digest value; not_modified = true })))
  unfolding get_config
  put_config-get_config w n l =
      let found : get_active_config false key installed ≡ ok written =
        active-found installed written
          (find-swapped key (actor_ptr actor) written t.rows (rw (str_eq_refl key))) in
      rw (put-eq w n l) (
        rw (found, get_config) refl,
        rw (found, get_config, (etag_matches-quoted (digest value)).0),
      )
