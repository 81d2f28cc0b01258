-- ===== src/Board/Program/Start.antt =====
-- `programinit` of `run_simple.c`: the lines of the literal with the first half of the code.
use Prim.Native.String.{String}
use rsd_m.Base.{List, [], ◌∷◌}

-- Lines 460 to 585 of the file.
abbrev pub code_lines : List String
code_lines =
    "ff9ff06f535000ef0000006f0100006f" ∷ "80020137305510730985051300000517"
    ∷ "00000193000001130000009319d000ef" ∷ "00000393000003130000029300000213"
    ∷ "00000593000005130000049300000413" ∷ "00000793000007130000069300000613"
    ∷ "00000993000009130000089300000813" ∷ "00000b9300000b1300000a9300000a13"
    ∷ "00000d9300000d1300000c9300000c13" ∷ "00000f9300000f1300000e9300000e13"
    ∷ "00012023f8010113f65ff06f80020137" ∷ "00412823003126230021242300112223"
    ∷ "0281202300712e2300612c2300512a23" ∷ "02c1282302b1262302a1242302912223"
    ∷ "0501202302f12e2302e12c2302d12a23" ∷ "05412823053126230521242305112223"
    ∷ "0781202305712e2305612c2305512a23" ∷ "07c1282307b1262307a1242307912223"
    ∷ "7ffff51707f12e2307e12c2307d12a23" ∷ "0002c5034000233700050293ed450513"
    ∷ "ff1ff06f00a320230005066300128293" ∷ "4000233700050293ed0505137ffff517"
    ∷ "00a3202300050663001282930002c503" ∷ "eb8282937ffff29734202573ff1ff06f"
    ∷ "0005051300b2a42300a2a2230012a023" ∷ "00050313000505130185551300050593"
    ∷ "e98282937ffff29700f5751300435513" ∷ "00a2a023400022b70005450300550533"
    ∷ "00550533e7c282937ffff29700f37513" ∷ "0005851300a2a023400022b700054503"
    ∷ "00435513000503130005051301055513" ∷ "00550533e6c282937ffff29700f57513"
    ∷ "00f3751300a2a023400022b700054503" ∷ "0005450300550533e50282937ffff297"
    ∷ "008555130005851300a2a023400022b7" ∷ "00f57513004355130005031300050513"
    ∷ "0005450300550533e40282937ffff297" ∷ "7ffff29700f3751300a2a023400022b7"
    ∷ "400022b70005450300550533e2428293" ∷ "00050313000505130005851300a2a023"
    ∷ "e18282937ffff29700f5751300435513" ∷ "00a2a023400022b70005450300550533"
    ∷ "00550533dfc282937ffff29700f37513" ∷ "7ffff29700a2a023400022b700054503"
    ∷ "0082a5830042a5030002a083de428293" ∷ "4000233700050293df0505137ffff517"
    ∷ "00a3202300050663001282930002c503" ∷ "dd8282937ffff29734102573ff1ff06f"
    ∷ "0005051300b2a42300a2a2230012a023" ∷ "00050313000505130185551300050593"
    ∷ "db8282937ffff29700f5751300435513" ∷ "00a2a023400022b70005450300550533"
    ∷ "00550533d9c282937ffff29700f37513" ∷ "0005851300a2a023400022b700054503"
    ∷ "00435513000503130005051301055513" ∷ "00550533d8c282937ffff29700f57513"
    ∷ "00f3751300a2a023400022b700054503" ∷ "0005450300550533d70282937ffff297"
    ∷ "008555130005851300a2a023400022b7" ∷ "00f57513004355130005031300050513"
    ∷ "0005450300550533d60282937ffff297" ∷ "7ffff29700f3751300a2a023400022b7"
    ∷ "400022b70005450300550533d4428293" ∷ "00050313000505130005851300a2a023"
    ∷ "d38282937ffff29700f5751300435513" ∷ "00a2a023400022b70005450300550533"
    ∷ "00550533d1c282937ffff29700f37513" ∷ "7ffff29700a2a023400022b700054503"
    ∷ "0082a5830042a5030002a083d0428293" ∷ "4000233700050293d10505137ffff517"
    ∷ "00a3202300050663001282930002c503" ∷ "cf8282937ffff29734302573ff1ff06f"
    ∷ "0005051300b2a42300a2a2230012a023" ∷ "00050313000505130185551300050593"
    ∷ "cd8282937ffff29700f5751300435513" ∷ "00a2a023400022b70005450300550533"
    ∷ "00550533cbc282937ffff29700f37513" ∷ "0005851300a2a023400022b700054503"
    ∷ "00435513000503130005051301055513" ∷ "00550533cac282937ffff29700f57513"
    ∷ "00f3751300a2a023400022b700054503" ∷ "0005450300550533c90282937ffff297"
    ∷ "008555130005851300a2a023400022b7" ∷ "00f57513004355130005031300050513"
    ∷ "0005450300550533c80282937ffff297" ∷ "7ffff29700f3751300a2a023400022b7"
    ∷ "400022b70005450300550533c6428293" ∷ "00050313000505130005851300a2a023"
    ∷ "c58282937ffff29700f5751300435513" ∷ "00a2a023400022b70005450300550533"
    ∷ "00550533c3c282937ffff29700f37513" ∷ "7ffff29700a2a023400022b700054503"
    ∷ "0082a5830042a5030002a083c2428293" ∷ "4000233700050293c30505137ffff517"
    ∷ "00a3202300050663001282930002c503" ∷ "0023d51308000e1300000393ff1ff06f"
    ∷ "00a2a2230012a023c10282937ffff297" ∷ "01855513000505930005051300b2a423"
    ∷ "00f57513004355130005031300050513" ∷ "0005450300550533bf0282937ffff297"
    ∷ "7ffff29700f3751300a2a023400022b7" ∷ "400022b70005450300550533bd428293"
    ∷ "00050513010555130005851300a2a023" ∷ "7ffff29700f575130043551300050313"
    ∷ "400022b70005450300550533bc428293" ∷ "ba8282937ffff29700f3751300a2a023"
    ∷ "00a2a023400022b70005450300550533" ∷ "00050313000505130085551300058513"
    ∷ "b98282937ffff29700f5751300435513" ∷ "00a2a023400022b70005450300550533"
    ∷ "00550533b7c282937ffff29700f37513" ∷ "0005851300a2a023400022b700054503"
    ∷ "00f57513004355130005031300050513" ∷ "0005450300550533b70282937ffff297"
    ∷ "7ffff29700f3751300a2a023400022b7" ∷ "400022b70005450300550533b5428293"
    ∷ "0002a083b3c282937ffff29700a2a023" ∷ "b48505137ffff5170082a5830042a503"
    ∷ "001282930002c5034000233700050293" ∷ "00238533ff1ff06f00a3202300050663"
    ∷ "0012a023b2c282937ffff29700052503" ∷ "000505930005051300b2a42300a2a223"
    ∷ "00435513000503130005051301855513" ∷ "00550533b0c282937ffff29700f57513"
    ∷ "00f3751300a2a023400022b700054503" ∷ "0005450300550533af0282937ffff297" ∷ []
