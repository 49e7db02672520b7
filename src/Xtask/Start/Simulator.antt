-- ===== src/Xtask/Start/Simulator.antt =====
-- The simulator that the plan of xtask/src/start.rs names.
use Prim.Native.String.{String}
use crosspoint_simulator_mcp.Prelude.{
  ◌≡◌, true, not, ◌||◌, Option, none, some, Result, ok, err, arith, Bool-cases, inl, inr,
  if◌then◌else◌,
}
use crosspoint_simulator_mcp.Xtask.{Host}
use crosspoint_simulator_mcp.Xtask.Start.{
  StartCsmProxyArgs, found, build_firmware, resolve_firmware, resolve_simulator,
}

module _ (host : Host) where
  found-file :
      (program board sim : String) (x : host.World × Result Unit String)
      → (found host program board x).1 ≡ ok (some sim)
      → host.is_file sim (found host program board x).0 ≡ true
  found-file program board sim (w, err e) h = absurd (ground arith)
  found-file program board sim (w, ok _) h = elim (Bool-cases (host.is_file program w)) [
    | inl there ↦ ground arith
    | inr missing ↦ absurd (ground arith)
  ]

  -- A simulator that the plan names is a file of the machine as the plan leaves it: one that was given,
  -- one that was there, or one that was built.
  pub resolve_simulator-file :
      (args : StartCsmProxyArgs) (w : host.World) (sim : String)
      → (resolve_simulator host args w).1 ≡ ok (some sim)
      → host.is_file sim (resolve_simulator host args w).0 ≡ true
  unfolding resolve_simulator
  resolve_simulator-file args w sim h = resolved args.firmware h
    where
      resolved :
          (firmware : Option String)
          → (resolve_firmware host args firmware w).1 ≡ ok (some sim)
          → host.is_file sim (resolve_firmware host args firmware w).0 ≡ true
      resolved none h = absurd (ground arith)
      resolved (some firmware) h = elim (Bool-cases (host.is_file firmware w)) [
        | inl file ↦ ground arith
        | inr other ↦ elim (Bool-cases (host.is_dir firmware w)) [
          | inr nothing ↦ absurd (ground arith)
          | inl dir ↦
              let program =
                host.join (host.join (host.join (host.join firmware ".pio") "build") args.board)
                  "program" in
              let x : host.World × Result Unit String =
                if args.build_firmware || not (host.is_file program w)
                then build_firmware host firmware args.board args.grpc_prefix args.ld_library_path w
                else (w, ok tt) in
              rw (other, dir) (found-file program args.board sim x (ground arith))
        ]
      ]
