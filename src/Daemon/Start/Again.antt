-- ===== src/Daemon/Start/Again.antt =====
-- What a daemon starts with, and what a second start finds of the first.
use penguinsync.Base.{
  ◌≡◌, refl, ap, sym, ◌∙◌, subst, Bytes, Str, str, true, false, List, arith, bytes_key, IsArray,
  Option-cases, inl, inr, [],
}
use penguinsync.Base.Addr.{SocketAddr, octets}
use penguinsync.Base.Addr
use penguinsync.Base.Trim.{join_path}
use penguinsync.Base.Map.{lookup, elem}
use penguinsync.Base.Result.{ok, Result-cases}
use penguinsync.Base.Disk.{Disk, read_to_string}
use penguinsync.Base.Disk.Replacing.{Json, fetch}
use penguinsync.Protocol.Hex.{device_id_len}
use penguinsync.Net.Tls.{Crypto, is_paired}
use penguinsync.Net.Tls.Trust.{is_paired-new}
use penguinsync.Net.Identity.{Rcgen, Identity, load_or_generate}
use penguinsync.Net.Identity.Untouched.{load_or_generate-other}
use penguinsync.Daemon.State.{PersistedState, device_ids}
use penguinsync.Daemon.State.Saving
use penguinsync.Daemon.Config.{
  Config, Surroundings, Toml, load, xdg_config_dir, xdg_data_dir, device_name,
}
use penguinsync.Daemon.Shared.{Shared}
use penguinsync.Daemon.Dbus.{device_path}
use penguinsync.Daemon.World.Restart.{IsStarted}
use penguinsync.Daemon.Tasks.Ticks.{Tick, run}
use penguinsync.Daemon.Tasks.Saved.{is_unsaved, run-saves}
use penguinsync.Daemon.Tasks.Refines.Reach.{at_rest}
use penguinsync.Daemon.Start.{Answers, state_file, shared, serve, start, main, bound_or, restore}
use penguinsync.Daemon.Start.Restored.{IsShown, restored}

module _ {crypto : Crypto} (rcgen : Rcgen crypto) (json : Json PersistedState) where
  -- The daemon that came up is `shared` on the identity and the state of this disk.
  abbrev IsUp : Answers rcgen → Disk → Shared → Type 0
  IsUp answers d s =
      (identity : Identity rcgen) × (name : Str) × (addr : SocketAddr) × ((load_or_generate rcgen
          answers.fresh answers.cut d).1
        ≡ ok identity)
      × (s
          ≡ shared rcgen json identity (Saving.load json state_file d) name addr answers.probe
              answers.disk_writable)

  load-unchanged :
      (answers : Answers rcgen) (d : Disk)
      → Saving.load json state_file (load_or_generate rcgen answers.fresh answers.cut d).0
        ≡ Saving.load json state_file d
  unfolding Saving.load fetch read_to_string
  load-unchanged answers d = ground (
    arith,
    load_or_generate-other rcgen answers.fresh answers.cut d state_file (λ e. ground arith)
        (λ e. ground arith),
  )

  serve-shared :
      (around : Surroundings) (answers : Answers rcgen) (config : Config)
      (identity : Identity rcgen) (state : PersistedState) (s : Shared)
      → serve rcgen json config around answers identity state ≡ ok s
      → (name : Str) × (addr : SocketAddr) × (s
          ≡ shared rcgen json identity state name addr answers.probe answers.disk_writable)
  unfolding serve
  serve-shared around answers config identity state s h =
      let listen_addr = Addr.new (octets 0 0 0 0) config.listen_port in
      elim (Result-cases (answers.bind listen_addr)) [
        | inl (e, refused) ↦ ground arith
        | inr (local_addr, bound) ↦ elim (Result-cases answers.bus) [
          | inl (e, refused) ↦ ground arith
          | inr (u, connected) ↦
              (device_name config around, bound_or local_addr listen_addr, ground arith)
        ]
      ]

  start-IsUp :
      (around : Surroundings) (answers : Answers rcgen) (config : Config) (d : Disk) (s : Shared)
      → (start rcgen json around answers config d).1 ≡ ok s
      → IsUp answers d s
  unfolding start
  start-IsUp around answers config d s h =
      let (d', found) = load_or_generate rcgen answers.fresh answers.cut d in
      elim (Result-cases found) [
        | inl (e, failed) ↦ ground arith
        | inr (identity, made) ↦
            let (name, addr, up) =
              serve-shared around answers config identity (Saving.load json state_file d') s
                (ground arith) in
            (
              identity,
              name,
              addr,
              made,
              up
                  ∙ ap
                      (λ state.
                        shared rcgen json identity state name addr answers.probe
                          answers.disk_writable)
                      (load-unchanged answers d),
            )
      ]

  main-IsUp :
      (toml : Toml) (around : Surroundings) (answers : Answers rcgen) (d : Disk) (s : Shared)
      → (main rcgen json toml around answers d).1 ≡ ok s
      → IsUp answers d s
  unfolding main
  main-IsUp toml around answers d s h = elim (Option-cases (xdg_config_dir around)) [
    | inl homeless ↦ ground arith
    | inr (config_dir, found) ↦ elim (Option-cases (xdg_data_dir around)) [
      | inl homeless ↦ ground arith
      | inr (data_dir, also) ↦
          start-IsUp around answers (load toml around (join_path config_dir (str "config.toml"))) d
            s (ground arith)
    ]
  ]

  -- A daemon that comes up has the state of its file, trusts exactly the devices of that state, has
  -- no event and no confirmation to wait for, carries the device id of the identity that was loaded
  -- or made, and shows for each 32-byte id an object, not connected, exactly if it trusts that id.
  pub main-IsStarted :
      (toml : Toml) (around : Surroundings) (answers : Answers rcgen) (d : Disk) (s : Shared)
      (id : Bytes)
      → (main rcgen json toml around answers d).1 ≡ ok s
      → IsArray device_id_len id
      → IsStarted s
        × (s.disk ≡ Saving.load json state_file d)
        × ((identity : Identity rcgen) × ((load_or_generate rcgen answers.fresh answers.cut d).1
              ≡ ok identity)
            × (s.identity ≡ identity.device_id))
        × IsShown id (lookup (device_path id) s.objects) (is_paired s.trust id)
  unfolding shared
  main-IsStarted toml around answers d s id h hid =
      let (identity, name, addr, made, up) = main-IsUp toml around answers d s h in
      let state = Saving.load json state_file d in
      (
        subst IsStarted (sym up)
            (record { loaded = refl; trusting = refl; quiet = refl; idle = refl }),
        ap (λ x. x.disk) up,
        (identity, made, ap (λ x. x.identity) up),
        subst (λ x. IsShown id (lookup (device_path id) x.objects) (is_paired x.trust id)) (sym up)
            (subst (IsShown id (lookup (device_path id) (restore state.devices [])))
              (sym (is_paired-new (device_ids state) id)) (restored state id hid)),
      )

  -- A second start has the devices that the first daemon had in memory at last. The first came up on
  -- a file that can be written, and its orchestrator, any calls of its methods and its clipboard's loop
  -- then moved in any order, one access at a time, until no task stood between its change of the
  -- devices and their save. The second comes up on a disk whose file loads as the first left it. It
  -- then has the same devices, trusts the 32-byte id exactly if it is one of theirs, and shows an
  -- object for it, not connected, exactly then.
  pub main-restart :
      (toml : Toml) (around around' : Surroundings) (answers answers' : Answers rcgen) (d d' : Disk)
      (s s' : Shared) (blake3 : Bytes → Bytes) (ticks : List Tick) (id : Bytes)
      → (main rcgen json toml around answers d).1 ≡ ok s
      → answers.disk_writable ≡ true
      → is_unsaved (run blake3 (at_rest s) ticks) ≡ false
      → Saving.load json state_file d' ≡ (run blake3 (at_rest s) ticks).shared.disk
      → (main rcgen json toml around' answers' d').1 ≡ ok s'
      → IsArray device_id_len id
      → let last = (run blake3 (at_rest s) ticks).shared.state in
        (s'.state ≡ last)
        × (is_paired s'.trust id ≡ elem id (device_ids last))
        × IsShown id (lookup (device_path id) s'.objects) (elem id (device_ids last))
  unfolding shared
  main-restart toml around around' answers answers' d d' s s' blake3 ticks id first writable quiet
        kept second hid =
      let (identity, name, addr, made, up) = main-IsUp toml around answers d s first in
      let started = main-IsStarted toml around answers d s id first hid in
      let again = main-IsStarted toml around' answers' d' s' id second hid in
      let saved =
        run-saves blake3 (at_rest s) ticks (ap (λ x. x.disk_writable) up ∙ writable)
          (sym started.0.loaded) quiet in
      let file = again.1 ∙ kept ∙ saved in
      let trusts =
        ap (λ t. is_paired t id) again.0.trusting
        ∙ is_paired-new (device_ids s'.disk) id
        ∙ ap (λ p. elem id (device_ids p)) file in
      (
        again.0.loaded ∙ file,
        trusts,
        subst (IsShown id (lookup (device_path id) s'.objects)) trusts again.3,
      )
