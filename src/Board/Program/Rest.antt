-- ===== src/Board/Program/Rest.antt =====
-- `programinit` of `run_simple.c`: the lines of the literal with the rest of the code and its data.
use Prim.Native.String.{String}
use rsd_m.Base.{List, [], ◌∷◌}

-- Lines 586 to 710 of the file.
abbrev pub more_code : List String
more_code =
    "010555130005851300a2a023400022b7" ∷ "00f57513004355130005031300050513"
    ∷ "0005450300550533ae0282937ffff297" ∷ "7ffff29700f3751300a2a023400022b7"
    ∷ "400022b70005450300550533ac428293" ∷ "00050513008555130005851300a2a023"
    ∷ "7ffff29700f575130043551300050313" ∷ "400022b70005450300550533ab428293"
    ∷ "a98282937ffff29700f3751300a2a023" ∷ "00a2a023400022b70005450300550533"
    ∷ "00435513000503130005051300058513" ∷ "00550533a8c282937ffff29700f57513"
    ∷ "00f3751300a2a023400022b700054503" ∷ "0005450300550533a70282937ffff297"
    ∷ "a58282937ffff29700a2a023400022b7" ∷ "7ffff5170082a5830042a5030002a083"
    ∷ "0002c5034000233700050293a6450513" ∷ "ff1ff06f00a320230005066300128293"
    ∷ "a48505137ffff517cfc39ce300438393" ∷ "001282930002c5034000233700050293"
    ∷ "ed8ff06fff1ff06f00a3202300050663" ∷ "00c12183008121030041208300012003"
    ∷ "01c12383018123030141228301012203" ∷ "02c12583028125030241248302012403"
    ∷ "03c12783038127030341268303012603" ∷ "04c12983048129030441288304012803"
    ∷ "05c12b8305812b0305412a8305012a03" ∷ "06c12d8306812d0306412c8306012c03"
    ∷ "07c12f8307812f0307412e8307012e03" ∷ "800005b7000000003020007308010113"
    ∷ "000787933745859380000737800007b7" ∷ "40f585b3374505133747071380000537"
    ∷ "f8478693000027b70205886340e50533" ∷ "40f8083300d585b3f847879380000837"
    ∷ "00c680230017879300f806b30007c603" ∷ "00e787b3ffc5779300050c63feb798e3"
    ∷ "00008067fef71ce30047071300072023" ∷ "00e5b73300458693004507130c060663"
    ∷ "0016c69300174713fff6079300d536b3" ∷ "00e7f7b30017c79300d767330097b793"
    ∷ "06079a630037f79300b567b308078063" ∷ "00b808330005071300058793ffc67813"
    ∷ "fed72e2300478793004707130007a683" ∷ "00f5873306f60263ffc67793ff0798e3"
    ∷ "010680230017871300f506b300074803" ∷ "00e507330006c68300e586b304c77663"
    ∷ "00f585b302c7fa6300d7002300278793" ∷ "0000806700e7802300f507b30005c703"
    ∷ "001787930005c70300c5863300050793" ∷ "00008067fec598e3fee78fa300158593"
    ∷ "064006930000079300012623ff010113" ∷ "0017879300e1262300f7073300c12703"
    ∷ "bf0101130000806701010113fed798e3" ∷ "0010089340a005330005566300000893"
    ∷ "00a00593000007930008069301010813" ∷ "0046869302b56733000607930080006f"
    ∷ "fee6ae230307071302b5453300178613" ∷ "002617934101071300088e63fe0512e3"
    ∷ "00060793c0e7a02302d0071300f707b3" ∷ "400025b70640069300f8063300279793"
    ∷ "00f7073300c127030000079300012623" ∷ "00062783fed798e30017879300e12623"
    ∷ "0007061300c8066300f5a023ffc60713" ∷ "fc0101130000806741010113fd1ff06f"
    ∷ "03212a2302912c2302812e2301010613" ∷ "00200893001008130006071303010593"
    ∷ "00600393005004130040049300300313" ∷ "00a00e9300900f1300800f9300700293"
    ∷ "080780630300069300f5779300b00e13" ∷ "071788630320069307078c6303100693"
    ∷ "06978063034006930667846303300693" ∷ "047788630360069304878c6303500693"
    ∷ "05f78063038006930457846303700693" ∷ "03d788630610069303e78c6303900693"
    ∷ "0630069300c0091303c7846306200693" ∷ "012788630640069300d0091301278e63"
    ∷ "00d720230657869300f037b3ff278793" ∷ "fe060513f6b716e34045551300470713"
    ∷ "0000079300012623400025b706400693" ∷ "0017879300e1262300f7073300c12703"
    ∷ "00f5a023ffc6061301c62783fed798e3" ∷ "034129030381248303c12403fcc51ce3"
    ∷ "00012623ff0101130000806704010113" ∷ "00f7073300c127030640069300000793"
    ∷ "400027b7fed798e30017879300e12623" ∷ "fc010113000080670101011300a78023"
    ∷ "03c12703064006930000079302012e23" ∷ "fed798e30017879302e12e2300f70733"
    ∷ "02012c2300e7802304800713400027b7" ∷ "00f70733038127030640069300000793"
    ∷ "400027b7fed798e30017879302e12c23" ∷ "0000079302012a2300e7802306500713"
    ∷ "02e12a2300f707330341270306400693" ∷ "06c00713400027b7fed798e300178793"
    ∷ "06400693000007930201282300e78023" ∷ "0017879302e1282300f7073303012703"
    ∷ "00e7802306c00713400027b7fed798e3" ∷ "02c12703064006930000079302012623"
    ∷ "fed798e30017879302e1262300f70733" ∷ "0201242300e7802306f00713400027b7"
    ∷ "00f70733028127030640069300000793" ∷ "400027b7fed798e30017879302e12423"
    ∷ "000007930201222300e7802302c00713" ∷ "02e1222300f707330241270306400693"
    ∷ "05700713400027b7fed798e300178793" ∷ "06400693000007930201202300e78023"
    ∷ "0017879302e1202300f7073302012703" ∷ "00e7802306f00713400027b7fed798e3"
    ∷ "01c12703064006930000079300012e23" ∷ "fed798e30017879300e12e2300f70733"
    ∷ "00012c2300e7802307200713400027b7" ∷ "00f70733018127030640069300000793"
    ∷ "400027b7fed798e30017879300e12c23" ∷ "0000079300012a2300e7802306c00713"
    ∷ "00e12a2300f707330141270306400693" ∷ "00f7002340002737fed798e300178793"
    ∷ "01012703064006930000079300012823" ∷ "fed798e30017879300e1282300f70733"
    ∷ "0001262300e7802302100713400027b7" ∷ "00f7073300c127030640069300000793"
    ∷ "400027b7fed798e30017879300e12623" ∷ "040101130000051300e7802300a00713"
    ∷ "7470656378450a6d34335b1b00008067" ∷ "000000000a2e646573756163206e6f69"
    ∷ "00000000003a65737561636d00000000" ∷ []

-- Lines 711 to 763 of the file.
abbrev pub data_lines : List String
data_lines =
    "00000000000000000000000000000000" ∷ "62613938373635343332313000000000"
    ∷ "00000000000000000000000066656463" ∷ "62613938373635343332313000000000"
    ∷ "00000000000000000000000066656463" ∷ "62613938373635343332313000000000"
    ∷ "00000000000000000000000066656463" ∷ "62613938373635343332313000000000"
    ∷ "00000000000000000000000066656463" ∷ "0000000000003a6370656d2000000000"
    ∷ "00000000000000000000000000000000" ∷ "62613938373635343332313000000000"
    ∷ "00000000000000000000000066656463" ∷ "62613938373635343332313000000000"
    ∷ "00000000000000000000000066656463" ∷ "62613938373635343332313000000000"
    ∷ "00000000000000000000000066656463" ∷ "62613938373635343332313000000000"
    ∷ "00000000000000000000000066656463" ∷ "00003a726464616461626d2000000000"
    ∷ "00000000000000000000000000000000" ∷ "62613938373635343332313000000000"
    ∷ "00000000000000000000000066656463" ∷ "62613938373635343332313000000000"
    ∷ "00000000000000000000000066656463" ∷ "62613938373635343332313000000000"
    ∷ "00000000000000000000000066656463" ∷ "62613938373635343332313000000000"
    ∷ "00000000000000000000000066656463" ∷ "00000000000000000000000a00000000"
    ∷ "00000000000000000000000000000000" ∷ "62613938373635343332313000000000"
    ∷ "00000000000000000000000066656463" ∷ "62613938373635343332313000000000"
    ∷ "00000000000000000000000066656463" ∷ "62613938373635343332313000000000"
    ∷ "00000000000000000000000066656463" ∷ "62613938373635343332313000000000"
    ∷ "00000000000000000000000066656463" ∷ "00000000000000000000203a00000000"
    ∷ "00000000000000000000000000000000" ∷ "62613938373635343332313000000000"
    ∷ "00000000000000000000000066656463" ∷ "62613938373635343332313000000000"
    ∷ "00000000000000000000000066656463" ∷ "62613938373635343332313000000000"
    ∷ "00000000000000000000000066656463" ∷ "62613938373635343332313000000000"
    ∷ "00000000000000000000000066656463" ∷ "00000000000000000000000a00000000"
    ∷ "0a2e2e2e676e6974726f626100000000" ∷ "0000000000000000000000006d305b1b"
    ∷ "00000000000000000044535200000000" ∷ []
