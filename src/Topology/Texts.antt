-- ===== src/Topology/Texts.antt =====
-- The texts that frontend/src/admin/lib/topology.js puts on nodes and warnings.
use ai_routing_panel.Prelude.{String}

-- descriptions
abbrev pub client_text : String
client_text = "入口依据控制面记录的 DNS 目标；客户端 DNS 缓存和连接复用可能仍使用原入口。"

abbrev pub normal_mixed_text : String
normal_mixed_text = "按端口账号分流：已开启全部转发的账号走 AI，其余账号按域名分流。统一入口保留账号隔离。"

abbrev pub normal_all_text : String
normal_all_text = "托管租户入口的代理 TCP/UDP 流量统一使用所选 AI 出口，保留管理与阻断规则。客户端 DIRECT 流量不经过服务器。"

abbrev pub normal_text : String
normal_text = "处理域名分流：普通及未分类域名使用默认直出，AI 域名按已应用的分流规则转发。管理状态不代表客户端链路健康。"

abbrev pub direct_mixed_text : String
direct_mixed_text = "保留按域名分流账号的普通直出，全部 AI 账号只在故障回退时使用。"

abbrev pub direct_all_text : String
direct_all_text = "全部转发已应用，直出保留为故障回退路径。"

abbrev pub direct_only_text : String
direct_only_text = "已确认普通数据面直出，AI 域名也使用直出。"

abbrev pub direct_text : String
direct_text = "普通及未分类域名的默认出口；即使 AI 分流已应用，这条路径仍然保留。"

abbrev pub backup_text : String
backup_text = "备用配置按自身默认出口转发全部域名，不沿用普通数据面的 AI 域名分流。DNS 目标不表示所有客户端已切换。"

abbrev pub relay_text : String
relay_text = "来自备用入口实际配置的默认上游，可能与普通数据面的 AI 出口不同。上游不可达不会自动产生备用直出路径。"

abbrev pub backup_direct_text : String
backup_direct_text = "备用配置的默认直出，全部域名从备用入口出站，不经过 AI 候选。"

abbrev pub ai_mixed_text : String
ai_mixed_text = "承接已开启全部转发账号的全部 TCP/UDP 流量，以及其他账号的 AI 域名流量。"

abbrev pub ai_all_text : String
ai_all_text = "承接进入托管租户入口的全部代理 TCP/UDP 流量，含普通域名、未知域名及 IP 目标。"

abbrev pub ai_selected_text : String
ai_selected_text = "路由报告选中的 AI 出口；配置应用与业务探测共同决定图中状态。该出口只承接匹配 AI 域名规则的流量。"

abbrev pub ai_text : String
ai_text = "普通数据面已配置的 AI 候选，未选中时不表示承接当前流量。"

abbrev pub ordinary_exit_text : String
ordinary_exit_text = "域名流量的访问目标示意，配置路径不代表目标网站健康或正在传输的数据量。"

abbrev pub ai_exit_text : String
ai_exit_text = "匹配 AI 分流规则的域名目标；不代表已观测到该目标的当前吞吐量。"

abbrev pub backup_exit_text : String
backup_exit_text = "备用入口的全部域名目标；普通数据面的 AI 分流规则不会在这里重复应用。"

-- warnings
abbrev pub pending_text : String
pending_text = " 个 AI 候选，正在等待路由报告或配置应用确认；普通直出保留，AI 分流尚未确认。"

abbrev pub no_candidate_text : String
no_candidate_text = "尚未配置 AI 候选，无法展示 AI 出口。"

abbrev pub all_unconfirmed_text : String
all_unconfirmed_text = "全部转发配置已应用，但选中候选的业务探测未确认可达；等待健康周期确认。"

abbrev pub ai_unconfirmed_text : String
ai_unconfirmed_text = "AI 分流配置已应用，但选中候选的业务探测未确认可达；普通直出仍然保留。"

abbrev pub relay_unconfirmed_text : String
relay_unconfirmed_text = "备用入口配置为全部域名中继，上游探测尚未确认可达；没有自动直出路径。"

abbrev pub backup_unknown_text : String
backup_unknown_text = "DNS 记录指向备用入口，但实际出口配置尚未确认。"

abbrev pub backup_pending_text : String
backup_pending_text = "主入口状态未确认，DNS 记录仍指向主入口；备用入口尚未成为记录目标。"

abbrev pub unknown_text : String
unknown_text = "路由状态未知，未标记任何已确认路径。"

abbrev pub pending_scenario_text : String
pending_scenario_text = "普通及未分类域名保留默认直出；AI 分流的应用与探测证据尚未完整。"
