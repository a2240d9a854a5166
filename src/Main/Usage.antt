-- ===== src/Main/Usage.antt =====
-- What main.cpp writes with `fprintf` and `printf` when it leaves at its arguments.
use chaos_forger.Prelude.{true, false, List, [], ◌∷◌, ◌++◌, Bytes, text}
use chaos_forger.Log.{Written}
use chaos_forger.Main.Args.{Stop, usage, printed_version, missing_value, unknown_argument}

-- The format with `version` and `argv0` in it.
unfoldable pub print_usage : Bytes → Bytes → Written
print_usage version argv0 = record {
  to_stderr = true;
  line =
      text "Chaos_Forger "
      ++ (version
          ++ (text " -- local Docker chaos daemon\n\nUsage: "
              ++ (argv0
                  ++ (text " [options]\n\nOptions:\n"
                      ++ (text
                            "  -c, --config <path>   path to config.json (default: ./config.json)\n"
                          ++ (text "  -o, --once            run a single tick and exit\n"
                              ++ (text
                                    "  -n, --dry-run         log strikes without executing them\n"
                                  ++ (text
                                        "  -d, --discover        list running containers, log rule matches, exit\n"
                                      ++ (text "  -h, --help            show this help\n"
                                          ++ text
                                              "  -v, --version         print version\n")))))))));
}

unfoldable pub print_version : Bytes → Written
print_version version = record {
  to_stderr = false;
  line = text "Chaos_Forger " ++ (version ++ text "\n");
}

unfoldable pub printed_at : Bytes → Bytes → Stop → List Written
unfolding print_usage print_version
printed_at version argv0 usage = print_usage version argv0 ∷ []
printed_at version argv0 printed_version = print_version version ∷ []
printed_at version argv0 missing_value = []
printed_at version argv0 (unknown_argument arg) = print_usage version argv0 ∷ []
